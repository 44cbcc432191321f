-- ===== src/Servers/Pick.antt =====
-- The choice of a node for a new device.
use vpn_controll_app.Base.{
  ℕ, ◌≤◌, true, false, none, some, List, [], ◌∷◌, ◌≡◌, inl, inr, Bool-cases, All, nat_Eq,
}
use vpn_controll_app.Base.Sort.{All-of_sorted}
use vpn_controll_app.Base.Filter.{filter-All, filter-All⁻, min_by-All, min_by-least, min_by-none}
use vpn_controll_app.Dict.{lookup}
use vpn_controll_app.Dict.Distinct.{AllValues-All}
use vpn_controll_app.Domain.Entities.{ServerNode}
use vpn_controll_app.Storage.State.{Store}
use vpn_controll_app.Storage.Tables.{list_server_nodes, count_active_devices_for_server}
use vpn_controll_app.Servers.{is_selectable, list_available, pick_for_new_device}

-- Every element of a list, with no condition.
All-tt : (xs : List ServerNode) → All (λ _. Unit {0}) xs
All-tt [] = tt
All-tt (x ∷ xs) = (tt, All-tt xs)

module _ (s : Store) where
  -- What holds of the available nodes holds of every stored node that may be selected.
  stored_available :
      (P : ServerNode → Type 0)
      → All P (list_available s)
      → (k : ℕ) (node : ServerNode) → lookup k s.server_nodes ≡ some node
      → is_selectable node ≡ true
      → P node
  unfolding list_available list_server_nodes
  stored_available P h =
      AllValues-All (λ n. is_selectable n ≡ true → P n) s.server_nodes
        (All-of_sorted (λ n. n.created_at) _ _ (filter-All⁻ P is_selectable _ h))

  -- A node that is picked may be selected, and is no more loaded than any that may be.
  pick_lem :
      (node : ServerNode)
      → pick_for_new_device s ≡ some node
      → (is_selectable node ≡ true)
        × ((k : ℕ) (other : ServerNode)
            → lookup k s.server_nodes ≡ some other
            → is_selectable other ≡ true
            → count_active_devices_for_server node.id s
              ≤ count_active_devices_for_server other.id s)
  unfolding pick_for_new_device list_available
  pick_lem node e = (
    (min_by-All load (λ n. (is_selectable n ≡ true) × Unit {0}) _ node
        (filter-All (λ _. Unit {0}) is_selectable _ (All-tt _)) e).0,
    stored_available (λ n. load node ≤ load n) (min_by-least load _ node e),
  )
    where
      load : ServerNode → ℕ
      load n = count_active_devices_for_server n.id s

  pub pick-selectable :
      (node : ServerNode) → pick_for_new_device s ≡ some node → is_selectable node ≡ true
  pick-selectable node e = (pick_lem node e).0

  -- The node that is picked may be selected, and no stored node that may be selected has fewer
  -- active devices.
  pub pick-least :
      (node other : ServerNode) (k : ℕ)
      → pick_for_new_device s ≡ some node
      → lookup k s.server_nodes ≡ some other
      → is_selectable other ≡ true
      → (is_selectable node ≡ true)
        × (count_active_devices_for_server node.id s ≤ count_active_devices_for_server other.id s)
  pick-least node other k e found ready =
      let (selectable, least) = pick_lem node e in (selectable, least k other found ready)

  -- Where none is picked, no stored node may be selected.
  pub pick-none :
      (k : ℕ) (node : ServerNode)
      → pick_for_new_device s ≡ none
      → lookup k s.server_nodes ≡ some node
      → is_selectable node ≡ false
  unfolding pick_for_new_device
  pick-none k node e found = elim (Bool-cases (is_selectable node)) [
    | inl ready ↦ absurd (
        stored_available (λ _. ⊥) (min_by-none (λ n. count_active_devices_for_server n.id s) _ e) k
          node found ready)
    | inr busy ↦ busy
  ]
