-- ===== src/Editor/Tests.antt =====
-- Edited pairs at concrete rows.
use web_ui.Base.{◌≡◌, refl, true, none, some, [], ◌∷◌, length, get_elem?}
use web_ui.Base.Text.{codes}
use web_ui.Editor.Pairs.{
  Pair, pair, text, append, append_config_map_or_secret, append_env_from, splice, or_one, remove,
  remove_env_from, assign, value_part, changed, change, exchange, move,
}
use web_ui.Editor.Laws.{move_lem}

editor : Unit {0}
unfolding append append_config_map_or_secret append_env_from splice or_one remove remove_env_from
    assign changed change exchange move
editor = tt

abbrev row : Pair
row = pair (codes "A") (text (codes "1")) (some 0)

abbrev other : Pair
other = pair (codes "B") (text (codes "2")) (some 1)

move_lem_example :
    (get_elem? (move 0 1 (row ∷ other ∷ [])) 0 ≡ some other)
    × (length (move 0 1 (row ∷ other ∷ [])) ≡ 2)
move_lem_example = move_lem 0 1 0 row other (row ∷ other ∷ []) refl refl

changed_row :
    change (codes "3") (text (codes "3")) 1 value_part (row ∷ other ∷ [])
    ≡ some (row ∷ pair (codes "B") (text (codes "3")) (some 1) ∷ [])
unfolding editor
changed_row = refl

behind : change (codes "3") (text (codes "3")) 2 value_part (row ∷ other ∷ []) ≡ none
unfolding editor
behind = refl

-- After a removal, the next row gets the index that the last one has.
same_index : append true (remove 0 (row ∷ other ∷ [])) ≡ other ∷ pair [] (text []) (some 1) ∷ []
unfolding editor
same_index = refl
