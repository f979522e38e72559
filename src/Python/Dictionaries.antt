-- ===== src/Python/Dictionaries.antt =====
-- Dictionaries that are built by a sequence of `set_item`: what stands in them in the end.
use trap.Shared.{
  ◌≡◌, refl, ◌∙◌, Bool, true, false, ◌&&◌, not, List, [], ◌∷◌, list_eq, ok, All, arith, Run, ◌>>=◌,
  ◌>>◌,
}
use trap.Text.Utf8.{Str}
use trap.Python.Library.{PyErr, PyCrate}
use trap.Python.Build.{finished}
use trap.Python.Messages.{Has}

pub list_eq_refl : (s : Str) → list_eq s s ≡ true
list_eq_refl [] = refl
list_eq_refl (x ∷ s) = ground (arith, list_eq_refl s)

-- No entry has the key.
abbrev pub unset {ℓ} : {P : Type ℓ} → Str → List (Str × P) → Bool
unset j [] = true
unset j ((k, v) ∷ rest) = not (list_eq k j) && unset j rest

abbrev pub distinct {ℓ} : {P : Type ℓ} → List (Str × P) → Bool
distinct [] = true
distinct ((k, v) ∷ rest) = unset k rest && distinct rest

module _ {P D : Type 0} (py : PyCrate P D) where
  abbrev pub put : Str → P → D → D
  put k v d = (py.set_item k v d).0

  abbrev pub puts : List (Str × P) → D → D
  puts [] d = d
  puts ((k, v) ∷ rest) d = puts rest (put k v d)

  abbrev pub HasAll : D → List (Str × P) → Type 0
  HasAll d = All (λ entry. Has py d entry.0 entry.1)

  pub set_then :
      (k : Str) (v : P) (rest : Run D PyErr (Unit {0})) (d : D)
      → (py.set_item k v >> rest) d ≡ rest (put k v d)
  set_then k v rest d = rw (py.set_item_total k v d, ◌>>=◌)

  pub set_last : (k : Str) (v : P) (d : D) → finished (py.set_item k v d) ≡ ok (put k v d)
  set_last k v d = rw (py.set_item_total k v d)

  get_item-puts :
      (j : Str) (entries : List (Str × P)) (d : D)
      → unset j entries ≡ true
      → py.get_item j (puts entries d) ≡ py.get_item j d
  get_item-puts j [] d h = refl
  get_item-puts j ((k, v) ∷ rest) d h =
      get_item-puts j rest (put k v d) (ground arith) ∙ py.get_item-set_item j k v d ∙ rw (unlike h)
    where
      unlike : (not (list_eq k j) && unset j rest) ≡ true → list_eq k j ≡ false
      unlike h = ground arith

  -- Entries with different keys all stand in the dictionary.
  pub puts-HasAll :
      (entries : List (Str × P)) (d : D) → distinct entries ≡ true → HasAll (puts entries d) entries
  puts-HasAll [] d h = tt
  puts-HasAll ((k, v) ∷ rest) d h = (
    get_item-puts k rest (put k v d) (ground arith)
        ∙ py.get_item-set_item k k v d
        ∙ rw (list_eq_refl k),
    puts-HasAll rest (put k v d) (ground arith),
  )
