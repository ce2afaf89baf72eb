-- ===== src/Tests/LinkedLists.antt =====
-- A list of the items 4 and 5, in the elements at the addresses 10 and 20.
use nachos_project_2_os_subj.Base.{
  ℕ, ◌≡◌, ◌⊎◌, refl, [], ◌∷◌, List, none, some, true, false, ok, err, assert_failed, if◌then◌else◌,
  ◌==◌,
}
use nachos_project_2_os_subj.Lists.{LinkedList, is_in_list, append, prepend, remove_front, remove}
use nachos_project_2_os_subj.Lists.Chains.{stop, link, member, last_of}
use nachos_project_2_os_subj.Lists.Removal.{erase}
use nachos_project_2_os_subj.Lists.Reps.{Reps}
use nachos_project_2_os_subj.Lists.Implements.{list_implements}

abbrev items : List ℕ
items = 4 ∷ 5 ∷ []

abbrev two_items : LinkedList
two_items = record {
  elements = λ a.
      if a == 10
      then some (record { item = 4; next = some 20 })
      else if a == 20
      then some (record { item = 5; next = none })
      else none;
  first = some 10;
  last = some 20;
  num_in_list = 2;
}

two_items-Reps : Reps two_items (10 ∷ 20 ∷ []) (4 ∷ 5 ∷ [])
unfolding member last_of
two_items-Reps = record {
  chain = link 10 4 (some 20) (20 ∷ []) (5 ∷ []) refl refl (link 20 5 none [] [] refl refl stop);
  last = refl;
  num = refl;
}

list_implements_example :
    (is_in_list two_items 6 ≡ ok (member 6 items))
    × (((member 6 items ≡ true) × (append two_items 30 6 ≡ err assert_failed))
        ⊎ ((member 6 items ≡ false)
            × (l' : LinkedList) × (append two_items 30 6 ≡ ok l')
            × Reps l' (10 ∷ 20 ∷ 30 ∷ []) (4 ∷ 5 ∷ 6 ∷ [])))
    × (((member 6 items ≡ true) × (prepend two_items 30 6 ≡ err assert_failed))
        ⊎ ((member 6 items ≡ false)
            × (l' : LinkedList) × (prepend two_items 30 6 ≡ ok l')
            × Reps l' (30 ∷ 10 ∷ 20 ∷ []) (6 ∷ 4 ∷ 5 ∷ [])))
    × (((items ≡ []) × (remove_front two_items ≡ err assert_failed))
        ⊎ ((x : ℕ) × (xs' : List ℕ) × (ps' : List ℕ) × (items ≡ x ∷ xs')
            × (l' : LinkedList) × (remove_front two_items ≡ ok (l', x))
            × Reps l' ps' xs'))
    × (((member 6 items ≡ false) × (remove two_items 6 ≡ err assert_failed))
        ⊎ ((member 6 items ≡ true)
            × (l' : LinkedList) × (ps' : List ℕ) × Reps l' ps' (erase 6 items)
            × (remove two_items 6
                ≡ (if member 6 (erase 6 items) then err assert_failed else ok l'))))
list_implements_example = list_implements two_items (10 ∷ 20 ∷ []) items 30 6 two_items-Reps refl

-- Remove of the item at the end moves the pointer to the last element.
removed_last :
    (l' : LinkedList) × (remove two_items 5 ≡ ok l')
    × (l'.first ≡ some 10)
    × (l'.last ≡ some 10)
    × (l'.num_in_list ≡ 1)
unfolding remove
removed_last = (_, refl, refl, refl, refl)
