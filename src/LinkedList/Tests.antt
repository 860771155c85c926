-- ===== src/LinkedList/Tests.antt =====
-- A list of two elements in memory.
use oslearn.Base.{◌==◌, ◌≡◌, if◌then◌else◌, refl, [], ◌∷◌, arith, ok}
use oslearn.Interrupt.Status.{intr_on}
use oslearn.LinkedList.{Links, list_append, list_remove}
use oslearn.LinkedList.Seg.{IsList, IsFresh}
use oslearn.LinkedList.Insert.{Spares, list_append-IsList}
use oslearn.LinkedList.Remove.{list_remove-IsList}

-- The list at 100, with the elements 200 and 300.
abbrev two_elements : Links
two_elements = record {
  next = λ p. if p == 100 then 200 else if p == 200 then 300 else if p == 300 then 108 else 0;
  prev = λ p. if p == 108 then 300 else if p == 300 then 200 else if p == 200 then 100 else 0;
  intr = intr_on;
}

two_elements-IsList : IsList two_elements 100 (200 ∷ 300 ∷ [])
two_elements-IsList = record {
  chain = (refl, refl, (refl, refl, (refl, refl)));
  place = omega arith;
  no_head = refl;
  no_tail = refl;
  no_null = refl;
  distinct = (refl, (refl, tt));
}

fresh : IsFresh 100 (200 ∷ 300 ∷ []) 400
fresh = record {
  not_null = omega arith;
  not_head = omega arith;
  not_tail = omega arith;
  not_in = refl;
}

list_append-IsList_example :
    (s' : Links) × (list_append 100 400 two_elements ≡ ok s')
    × IsList s' 100 (200 ∷ 300 ∷ 400 ∷ [])
    × Spares two_elements s' 100 (200 ∷ 300 ∷ []) 400
list_append-IsList_example =
    list_append-IsList 100 400 two_elements (200 ∷ 300 ∷ []) two_elements-IsList fresh

list_remove-IsList_example :
    (s' : Links) × (list_remove 300 two_elements ≡ ok s')
    × IsList s' 100 (200 ∷ [])
    × Spares two_elements s' 100 (200 ∷ []) 300
list_remove-IsList_example =
    list_remove-IsList 100 300 two_elements (200 ∷ []) [] two_elements-IsList
