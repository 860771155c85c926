-- ===== src/Process/Execute/Grants.antt =====
-- The pages that `process_execute` takes.

use oslearn.Base.{
  length, true, ℕ, ◌+◌, ◌*◌, ◌<◌, ◌≡◌, refl, ap, sym, ◌∙◌, false, ==-refl, List, [], ◌∷◌, ◌++◌, ok,
  arith,
}
use oslearn.Bitmap.Bits.{used}
use oslearn.Memory.{VirtualAddr, pg_size}
use oslearn.Memory.Addresses.{IsVirtual}
use oslearn.Memory.Alloc.{Space, get_kernel_pages}
use oslearn.Memory.Alloc.Kernel.{IsKernelSpace}
use oslearn.Memory.Alloc.Page.{Keeps, Shows, Keeps-Shows}
use oslearn.Memory.Alloc.Granted.{Granted, HasRun, Keeps-Granted}
use oslearn.Memory.Alloc.Chain.{Gets, Granted-Gets, put_Gets, Gets-trans, Gets-used, Granted-used}
use oslearn.Memory.Alloc.Kernel.{addresses}
use oslearn.Machine.{load}
use oslearn.Memory.Alloc.After.{page_taken, taken-apart, Granted-Shows, Granted-HasRun}
use oslearn.Memory.Alloc.Given.{Given, SparesBut, get_kernel_pages-Given}
use oslearn.Memory.Alloc.Room.{HasRoom, Granted-HasRoom, room_page}
use oslearn.Spawn.{first_frame, store_fields}
use oslearn.Spawn.Frame.{put_fields, store_fields-Shows}
use oslearn.Spawn.Later.{Placed, Placed-Shows, Placed-load}
use oslearn.Spawn.Start.{frame_fits, frame_load}
use oslearn.Memory.Alloc.Granted.{HasPlainFrames}
use oslearn.Process.{user_vaddr_start, create_page_dir, create_user_vaddr_bitmap}
use oslearn.Process.Addresses.{create_user_vaddr_bitmap-IsVirtual}
use oslearn.Process.Directory.{IsPageDir, create_page_dir-IsPageDir}

-- The memory of a new process: a page for the task, 23 pages for the bitmap of its addresses, and one
-- for its directory.
pub record Grants (s : Space) (kt start filename : ℕ) : Type 0 where
  pub space₁ : Space
  pub space₂ : Space
  pub space₃ : Space
  pub page : ℕ
  pub frame : ℕ
  pub bits : ℕ
  pub bit_frames : List ℕ
  pub dir : ℕ
  pub dir_frame : ℕ
  pub vaddr : VirtualAddr
  pub got : get_kernel_pages 1 s ≡ ok (space₁, page)
  pub given : Given s space₁ page frame
  pub made : create_user_vaddr_bitmap space₁ ≡ ok (space₂, vaddr)
  pub granted : Granted space₁ space₂ bits bit_frames
  pub count : length bit_frames ≡ 23
  pub shows : Shows space₂.machine page frame
  pub wrote :
      store_fields (page + 3664) (first_frame kt start filename) space₂.machine
      ≡ ok (put_fields (frame + 3664) (first_frame kt start filename) space₂.machine)
  pub kept :
      Keeps space₂.machine
        (put_fields (frame + 3664) (first_frame kt start filename) space₂.machine)
  pub done :
      create_page_dir (record space₂ {
        machine = put_fields (frame + 3664) (first_frame kt start filename) space₂.machine;
      })
      ≡ ok (space₃, dir)
  pub last :
      Given
        (record space₂ {
          machine = put_fields (frame + 3664) (first_frame kt start filename) space₂.machine;
        })
        space₃
        dir
        dir_frame
  pub is_dir : IsPageDir space₃.machine dir_frame
  pub spares :
      SparesBut
        (record space₂ {
          machine = put_fields (frame + 3664) (first_frame kt start filename) space₂.machine;
        })
        space₃
        dir_frame
  pub virtual : IsVirtual vaddr
  pub begins : vaddr.vaddr_start ≡ user_vaddr_start
  pub ends : vaddr.vaddr_start + vaddr.vaddr_bitmap.btmp_bytes_len * 8 * pg_size ≡ 0xc0000000
  pub all_free :
      (i : ℕ) → i < vaddr.vaddr_bitmap.btmp_bytes_len * 8 → used vaddr.vaddr_bitmap i ≡ false

pub process-Grants :
    (s : Space) (kt start filename : ℕ)
    → IsKernelSpace s
    → HasPlainFrames s
    → HasRun s 24
    → HasRoom s (1 + (23 + (1 + 0)))
    → Grants s kt start filename
process-Grants s kt start filename w plain run room =
    let (i, lt, free) = room_page 24 s room in
    let (s₁, a, f, r₁, g₁, zeros, spares₁) =
      get_kernel_pages-Given i s w plain lt free (omega (arith, room.free_frames)) in
    let room₁ : HasRoom s₁ (23 + (1 + 0)) = Granted-HasRoom 1 g₁.granted refl room in
    let (s₂, b, fs, v, r₂, count, g₂, cleared, virtual, begins, ends, all_free) =
      create_user_vaddr_bitmap-IsVirtual s₁ g₁.granted.space g₁.granted.plain
        (Granted-HasRun g₁.granted refl run) (omega (arith, room₁.free_frames)) in
    let shows = Granted-Shows g₂ g₁.shows (
      taken-apart g₁.granted.page g₁.granted.space (page_taken g₁.granted refl)
        (g₁.granted.place ∙ ap (λ t. t + g₁.granted.page * pg_size) (sym g₁.granted.pages.start))
        g₂) in
    let (wrote, d) =
      store_fields-Shows (first_frame kt start filename) 916 (a + 3664) (f + 3664) s₂.machine a f
        shows refl refl (frame_fits kt start filename) in
    let g₂' = Keeps-Granted g₂ d in
    let room₂ : HasRoom
        (record s₂ { machine = put_fields (f + 3664) (first_frame kt start filename) s₂.machine })
        (1 + 0) =
      Granted-HasRoom 23 g₂' count room₁ in
    let (j, lt₃, free₃) = room_page 0 _ room₂ in
    let (s₃, p, q, r₃, g₃, is_dir, spares) =
      create_page_dir-IsPageDir j _ g₂'.space g₂'.plain lt₃ free₃
        (omega (arith, room₂.free_frames)) in
    record {
      space₁ = s₁;
      space₂ = s₂;
      space₃ = s₃;
      page = a;
      frame = f;
      bits = b;
      bit_frames = fs;
      dir = p;
      dir_frame = q;
      vaddr = v;
      got = r₁;
      given = g₁;
      made = r₂;
      granted = g₂;
      count = count;
      shows = shows;
      wrote = wrote;
      kept = d;
      done = r₃;
      last = g₃;
      is_dir = is_dir;
      spares = spares;
      virtual = virtual;
      begins = begins;
      ends = ends;
      all_free = all_free;
    }

module _ {s : Space} {kt start filename : ℕ} (w : IsKernelSpace s)
    (g : Grants s kt start filename) where
  -- The frames of the new process.
  pub Grants-Gets : Gets s g.space₃ (g.given.index ∷ (g.bit_frames ++ g.last.index ∷ []))
  Grants-Gets =
      Gets-trans (Gets-trans (Granted-Gets g.given.granted) (Granted-Gets g.granted))
        (put_Gets g.last.granted)

  -- The page of the task is still taken when the directory is made.
  page_used : used (addresses g.space₂).vaddr_bitmap g.given.granted.page ≡ true
  page_used = Granted-used g.given.granted.page g.granted (page_taken g.given.granted refl)

  pub page_used_last : used (addresses g.space₃).vaddr_bitmap g.given.granted.page ≡ true
  page_used_last = Granted-used g.given.granted.page g.last.granted page_used

  pub dir_used_last : used (addresses g.space₃).vaddr_bitmap g.last.granted.page ≡ true
  dir_used_last = page_taken g.last.granted refl

  -- When the directory is made, the task's page stands as `thread_create` has left it.
  placed :
      Placed
        (record (g.space₂) {
          machine = put_fields (g.frame + 3664) (first_frame kt start filename) g.space₂.machine;
        })
        g.page
        g.frame
  placed = record {
    shows = Keeps-Shows g.shows g.kept;
    page = g.given.granted.page;
    place =
        omega (arith, g.given.granted.place, g.granted.pages.start, g.given.granted.pages.start);
    page_used = page_used;
    index = g.given.index;
    frame_place = omega (arith, g.given.place, g.granted.start, g.given.granted.start);
    frame_is_used =
        Gets-used g.given.index (Granted-Gets g.granted)
          (g.given.granted.taken g.given.index ∙ rw (==-refl g.given.index) refl);
  }

  -- The task's page shows its frame in the end, with the words that `thread_create` has put there.
  pub page-Shows : Shows g.space₃.machine g.page g.frame
  page-Shows = Placed-Shows (Keeps-Granted g.granted g.kept).space placed g.last

  pub page_word :
      (j x : ℕ)
      → j < 1024
      → (put_fields (g.frame + 3664) (first_frame kt start filename) g.space₂.machine).words
          (g.frame + j * 4)
        ≡ x
      → load g.space₃.machine (g.page + j * 4) ≡ ok x
  page_word j x lt e =
      Placed-load (Keeps-Granted g.granted g.kept).space placed g.last j g.spares lt
      ∙ frame_load j x (Keeps-Shows g.shows g.kept) lt e
