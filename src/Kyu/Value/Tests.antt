-- ===== src/Kyu/Value/Tests.antt =====
-- Records of numbers, with a live field that shows the state of the world.
use sh.Prelude.{ℕ, ◌≡◌, ◌⊎◌, inl, none, some, List, [], ◌∷◌, Runes, codes, same, if◌then◌else◌}
use sh.Kyu.Value.Record.{Backings, find, Record, get, set_field, set_backing, clone, record_from}
use sh.Kyu.Value.Record.Fields.{set_field-get}
use sh.Kyu.Value.Record.Shape.{IsWell}
use sh.Kyu.Value.Record.Clone.{clone-same, Built, made, backed, assigned, Built-IsWell}

abbrev numbers : Backings
numbers = record {
  Value = ℕ;
  Backing = Unit;
  World = ℕ;
  read_field = λ b w. inl w;
  write_field = λ b v w. (v, none);
  error_val = λ err. 0;
  nil = 0;
}

abbrev fields : List (Runes × ℕ)
fields = (codes "a", 1) ∷ (codes "b", 2) ∷ (codes "a", 3) ∷ []

abbrev live : Record numbers
live = set_backing numbers (record_from numbers fields) (codes "b") tt

abbrev changed : Record numbers
changed = (set_field numbers live 5 (codes "c") 9).0

changed-Built : Built numbers changed
changed-Built = assigned 5 (codes "c") 9 (backed (codes "b") tt (made fields))

Built-IsWell_example : IsWell numbers changed
Built-IsWell_example = Built-IsWell numbers changed-Built

changed-IsWell : IsWell numbers changed
changed-IsWell = Built-IsWell numbers changed-Built

clone-same_example :
    IsWell numbers (clone numbers changed)
    × ((clone numbers changed).keys ≡ changed.keys)
    × ((w : ℕ) (name : Runes)
        → get numbers (clone numbers changed) w name ≡ get numbers changed w name)
clone-same_example = clone-same numbers changed changed-IsWell

set_field-get_example :
    ((b : Unit) × (find live.backing (codes "a") ≡ some b)
      × ((set_field numbers live 5 (codes "a") 7).0 ≡ live)
      × ((set_field numbers live 5 (codes "a") 7).1 ≡ 7)
      × ((set_field numbers live 5 (codes "a") 7).2 ≡ none))
    ⊎ ((find live.backing (codes "a") ≡ none)
        × ((set_field numbers live 5 (codes "a") 7).1 ≡ 5)
        × ((set_field numbers live 5 (codes "a") 7).2 ≡ none)
        × ((w' : ℕ) (name : Runes)
            → get numbers (set_field numbers live 5 (codes "a") 7).0 w' name
              ≡ (if same name (codes "a") then some 7 else get numbers live w' name)))
set_field-get_example = set_field-get numbers live 5 (codes "a") 7
