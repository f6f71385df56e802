-- ===== src/Access/WaitingList/Slots.antt =====
-- src/waitlist.cpp: the order in which the players wait, and the slots.
use mathlib.Core.List.{Mem, Sublist, not-mem-nil, mem-cons}
use mathlib.Core.List.Sublist
use mathlib.Core.Logic.Or
use otxlinux.Prelude.{
  ℕ, zero, suc, ◌<◌, ◌≡◌, refl, ap, inl, inr, none, some, List, [], ◌∷◌, map, arith, length, leb,
  Bool-cases, Option-cases,
}
use otxlinux.Access.WaitingList.{Wait, find_index, cleanup_list, erase_at, set_timeout}

abbrev pub guids : List Wait → List ℕ
guids ws = map (λ w. w.player_guid) ws

-- Dropping entries keeps the order of the others.
pub cleanup_list-sublist :
    (now : ℕ) (ws : List Wait) → Sublist (guids (cleanup_list now ws)) (guids ws)
unfolding cleanup_list
cleanup_list-sublist now [] = Sublist.refl []
cleanup_list-sublist now (w ∷ ws) = elim (Bool-cases (leb w.timeout now)) [
  | inl old ↦ rw old (Sublist.cons w.player_guid (cleanup_list-sublist now ws))
  | inr new ↦ rw new (Sublist.cons-cons w.player_guid (cleanup_list-sublist now ws))
]

pub erase_at-sublist : (i : ℕ) (ws : List Wait) → Sublist (guids (erase_at i ws)) (guids ws)
unfolding erase_at
erase_at-sublist i [] = Sublist.refl []
erase_at-sublist zero (w ∷ ws) = Sublist.cons w.player_guid (Sublist.refl (guids ws))
erase_at-sublist (suc i) (w ∷ ws) = Sublist.cons-cons w.player_guid (erase_at-sublist i ws)

pub guids-set_timeout : (i t : ℕ) (ws : List Wait) → guids (set_timeout i t ws) ≡ guids ws
unfolding set_timeout
guids-set_timeout i t [] = refl
guids-set_timeout zero t (w ∷ ws) = refl
guids-set_timeout (suc i) t (w ∷ ws) = ap (◌∷◌ w.player_guid) (guids-set_timeout i t ws)

-- Nobody is named in a list in which the search fails.
pub find_index-none :
    (guid : ℕ) (ws : List Wait) → find_index guid ws ≡ none → ¬ Mem guid (guids ws)
unfolding find_index
find_index-none guid [] e m = not-mem-nil m
find_index-none guid (w ∷ ws) e m =
    Or.elim (λ a b. absurd a) (mem-cons.0 m) (λ h. ground arith)
      (λ h. find_index-none guid ws (ground arith) h)

-- A found entry belongs to the player.
pub find_index-lt : (guid i : ℕ) (ws : List Wait) → find_index guid ws ≡ some i → i < length ws
unfolding find_index
find_index-lt guid i [] e = cc
find_index-lt guid i (w ∷ ws) e = elim (Option-cases (find_index guid ws)) [
  | inl none_left ↦ ground arith
  | inr (j, f) ↦ ground (arith, find_index-lt guid j ws f)
]
