-- ===== src/Sync/Frontier.antt =====
-- internal/sync/merge/frontier.go: the highest sequence number seen of each device.
pub mod Order
pub mod Ranges
pub mod Score
use remnix.Prelude.{
  String, List, [], ◌∷◌, Bool, true, false, ◌≡◌, Option, none, some, if◌then◌else◌, ◌==◌,
}
use remnix.Prelude.Int.{ℤ, pos, ltb_ℤ, leb_ℤ, ◌≤ℤ◌, add64}
use remnix.Prelude.Dict.{Dict, lookup, insert}
use Prim.Native.String.{compare}
use text.Mathlib.Text.{is_lt}

abbrev pub Frontier : Type 0
Frontier = Dict ℤ

pub record Range : Type 0 where
  pub device_id : String
  pub start : ℤ
  pub end : ℤ

-- A missing key reads as zero.
abbrev pub or_zero : Option ℤ → ℤ
or_zero none = pos 0
or_zero (some seq) = seq

-- `f[id]`
abbrev pub at : Frontier → String → ℤ
at f id = or_zero (lookup id f)

-- A copy that shares nothing: on values, the same map.
abbrev pub clone : Frontier → Frontier
clone f = f

unfoldable pub advance : Frontier → String → ℤ → Frontier
advance f device_id seq = if ltb_ℤ (at f device_id) seq then insert device_id seq f else f

-- The loop of `Missing` over the entries of `remote`.
unfoldable pub collect_missing : Frontier → Frontier → List Range
collect_missing local [] = []
collect_missing local ((device_id, remote_seq) ∷ remote) =
    let local_seq = at local device_id in
    let rest = collect_missing local remote in
    if ltb_ℤ local_seq remote_seq
    then record { device_id = device_id; start = add64 local_seq (pos 1); end = remote_seq } ∷ rest
    else rest

-- `sort.Slice` by device id. The ids are distinct, so every sort gives the same list.
unfoldable pub insert_range : Range → List Range → List Range
insert_range r [] = r ∷ []
insert_range r (s ∷ rs) =
    if is_lt (compare s.device_id r.device_id) then s ∷ insert_range r rs else r ∷ s ∷ rs

unfoldable pub sort_ranges : List Range → List Range
unfolding insert_range
sort_ranges [] = []
sort_ranges (r ∷ rs) = insert_range r (sort_ranges rs)

unfoldable pub missing : Frontier → Frontier → List Range
unfolding collect_missing sort_ranges
missing local remote = sort_ranges (collect_missing local remote)

unfoldable pub covers : Frontier → String → ℤ → Bool
covers f device_id seq = leb_ℤ seq (at f device_id)

unfoldable pub dominates : Frontier → Frontier → Bool
dominates a [] = true
dominates a ((id, seq) ∷ b) =
    let rest = dominates a b in if ltb_ℤ (at a id) seq then false else rest

unfoldable pub score_from : ℤ → Frontier → ℤ
score_from n [] = n
score_from n ((id, seq) ∷ f) = score_from (add64 n seq) f

unfoldable pub score : Frontier → ℤ
unfolding score_from
score f = score_from (pos 0) f

unfoldable pub union : Frontier → Frontier → Frontier
union out [] = out
union out ((id, seq) ∷ b) = union (if ltb_ℤ (at out id) seq then insert id seq out else out) b

-- Every sequence number is at least zero, as every number that a device hands out is.
abbrev pub NonNeg : Frontier → Type 0
NonNeg [] = Unit
NonNeg ((id, seq) ∷ f) = (pos 0 ≤ℤ seq) × NonNeg f
