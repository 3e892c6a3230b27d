-- ===== src/Tabs/Tests.antt =====
-- The theorems of Tabs at a concrete index, and a run of the snapshot.
use deepwork_browser.Prelude.{String, true, List, [], ◌∷◌, some, ◌==◌, lookup, ◌≡◌, ◌↔◌, refl}
use deepwork_browser.Tabs.Index.{
  TabHandle, TabIndex, new_tab_index, register, unregister, by_identity, snapshot, is_valid_role,
}
use deepwork_browser.Tabs.Order.{Sorted, string_lt}
use deepwork_browser.Tabs.Laws.{IsIndexed, IndexOp, registers, unregisters, run, by_identity_lem}
use mathlib.Core.List.{map, Memᴰ}

abbrev tab : String → String → TabHandle
tab target key = record {
  target_id = target;
  identity_key = key;
  workspace_id = "w";
  role = "agent";
  session_id = "";
  acquired_at = 0;
}

abbrev ops : List IndexOp
ops =
    registers (some (tab "t2" "x")) 5
    ∷ registers (some (tab "t1" "y")) 6
    ∷ registers (some (tab "t1" "x")) 7
    ∷ registers (some (tab "t0" "x")) 8
    ∷ unregisters "t9"
    ∷ []

abbrev one_tab : TabIndex
one_tab = ("t2", tab "t2" "x") ∷ []

new_tab_index-IsIndexed : IsIndexed new_tab_index
new_tab_index-IsIndexed = record { filed = tt; distinct = tt }

one_tab-IsIndexed : IsIndexed one_tab
unfolding is_valid_role
one_tab-IsIndexed = record { filed = ((refl, refl, refl, refl), tt); distinct = (tt, tt) }

snapshot_order :
    map {B = String × List String}
      (λ s. (s.key, map (λ t. t.target_id) s.tabs))
      (snapshot (run ops new_tab_index))
    ≡ ("x", "t0" ∷ "t2" ∷ []) ∷ ("y", "t1" ∷ []) ∷ []
unfolding snapshot run unregister register string_lt
snapshot_order = refl

by_identity_lem_example :
    (Memᴰ (tab "t2" "x") (by_identity "x" one_tab)
      ↔ ((lookup "t2" one_tab ≡ some (tab "t2" "x")) × (("x" == "x") ≡ true)))
    × Sorted (λ u. u.target_id) (by_identity "x" one_tab)
by_identity_lem_example = by_identity_lem "x" one_tab (tab "t2" "x") one_tab-IsIndexed
