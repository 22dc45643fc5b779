-- ===== src/LinkedList/Examples.antt =====
-- A list of three nodes.
use mathlib.Core.Option.{none, some}
use wasm_kernel.Base.{◌==◌, ◌≡◌, refl, true, [], ◌∷◌, if◌then◌else◌, Yields, arith}
use wasm_kernel.LinkedList.Store.{unlinked, Store, LinkedList}
use wasm_kernel.LinkedList.Chain.{Holds}
use wasm_kernel.LinkedList.Splits.{split_off}
use wasm_kernel.LinkedList.Splitting.{Splits}
use wasm_kernel.LinkedList.Appended.{Joins, split_append, split_off-append}

abbrev three_links : Store
three_links a =
    if a == 1
    then record { next = some 2; prev = none }
    else if a == 2
    then record { next = some 3; prev = some 1 }
    else if a == 3
    then record { next = none; prev = some 2 }
    else unlinked

abbrev three : LinkedList
three = record { head = some 1; tail = some 3; len = 3 }

three-Holds : Holds three_links three (1 ∷ 2 ∷ 3 ∷ [])
three-Holds = record {
  head = refl;
  tail = refl;
  len = refl;
  linked = (refl, refl, (refl, refl, (refl, refl, tt)));
  distinct = omega arith;
  fits = omega arith;
}

split_off-append_example :
    Yields (split_off true 1 three_links three) (Splits (1 ∷ []) (2 ∷ 3 ∷ []) three_links)
    × Yields
        (split_append true 1 three_links three)
        (λ (s', l', o). (l' ≡ three) × Joins (1 ∷ []) (2 ∷ 3 ∷ []) three_links (s', l', o))
split_off-append_example = split_off-append true three_links three (1 ∷ []) (2 ∷ 3 ∷ []) three-Holds
