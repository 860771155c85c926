-- ===== src/Process/Execute/Printed.antt =====
-- What `process_execute` prints, by a task that can have the console's lock.
use oslearn.Base.{ℕ, ◌≡◌, inr, ap, ◌∙◌, ◌++◌, List, ok}
use oslearn.Thread.State.{Kernel}
use oslearn.Sync.{returned}
use oslearn.Sync.Within.{IsWithin}
use oslearn.Console.{Console, console_put_str, console_put_int, then_print}
use oslearn.Console.Locked.{console_put_str_within}
use oslearn.Process.Execute.{Texts, announce}

-- The text is on the screen, and the task still can have the lock.
pub record Printed (text : List ℕ) (c c' : Console) (k : Kernel) : Type 0 where
  pub lock : IsWithin c'.lock k
  pub screen : c'.screen ≡ c.screen ++ text

pub console_put_str-Printed :
    (str : List ℕ) (c : Console) (k : Kernel)
    → IsWithin c.lock k
    → (c' : Console) × (console_put_str str c k ≡ ok (returned c' k)) × Printed str c c' k
console_put_str-Printed str c k w =
    let (c', r, s, h, n) = console_put_str_within str c k w in
    (c', r, record { lock = record { count = n; near = inr h }; screen = s })

pub announce-Printed :
    (t : Texts) (name : List ℕ) (thread : ℕ) (c : Console) (k : Kernel)
    → IsWithin c.lock k
    → (c' : Console) × (announce t name thread c k ≡ ok (returned c' k))
      × IsWithin c'.lock k
      × (c'.screen ≡ (((c.screen ++ t.opening) ++ name) ++ t.print thread) ++ t.newline)
unfolding announce then_print console_put_int
announce-Printed t name thread c k w =
    let (c₁, r₁, p₁) = console_put_str-Printed t.opening c k w in
    let (c₂, r₂, p₂) = console_put_str-Printed name c₁ k p₁.lock in
    let (c₃, r₃, p₃) = console_put_str-Printed (t.print thread) c₂ k p₂.lock in
    let (c₄, r₄, p₄) = console_put_str-Printed t.newline c₃ k p₃.lock in
    (
      c₄,
      simp (r₁, r₂, r₃, r₄),
      p₄.lock,
      p₄.screen
          ∙ ap (λ z. z ++ t.newline)
              (p₃.screen
                ∙ ap (λ z. z ++ t.print thread) (p₂.screen ∙ ap (λ z. z ++ name) p₁.screen)),
    )
