-- ===== src/Sync/Transport/Laws.antt =====
-- What the sync code relies on when it removes and writes objects, and a storage in memory.
use remnix.Prelude.{
  String, Bool, true, false, not, ◌&&◌, ◌||◌, List, [], ◌∷◌, Option, none, some, if◌then◌else◌,
  arith, ◌≡◌, eq_iff, ◌≢◌, ◌⊎◌, inl, inr, ◌==◌, All, Bool-cases, subst,
}
use remnix.Prelude.Dict.{Dict, lookup, insert, lookup-insert}
use remnix.Prelude.Text.{has_prefix, contains, split_slash}
use remnix.Prelude.Result.{Result, ok, err, not_exist}
use remnix.Sync.Transport.{Bytes, View, Transport, forgive}

are_clean : List String → Bool
are_clean [] = true
are_clean (p ∷ ps) = let rest = are_clean ps in not (p == "" || p == "." || p == "..") && rest

-- A key that every backend resolves as it is written: it has no part that is empty, "." or "..".
unfoldable pub is_clean : String → Bool
unfolding are_clean
is_clean key = are_clean (split_slash key)

abbrev pub Clean : List String → Type 0
Clean keys = All (λ k. is_clean k ≡ true) keys

are_above : List String → List String → Bool
are_above [] qs = true
are_above (p ∷ ps) [] = false
are_above (p ∷ ps) (q ∷ qs) = let rest = are_above ps qs in p == q && rest

-- The second key is the first one, or lies in the directory that the first one names.
unfoldable pub covers_key : String → String → Bool
unfolding are_above
covers_key k j = are_above (split_slash k) (split_slash j)

-- The content that can be read. A directory has none.
abbrev pub object_of : Result Bytes → Option Bytes
object_of (ok b) = some b
object_of (err e) = none

-- `Remove` deletes an object, or else the directory of that name with all that lies in it, and touches
-- nothing outside; each object is then as it was or gone. `PutAtomic` touches no other object but
-- temporary ones, and what it wrote can be read. A listing has clean keys.
pub record Lawful (t : Transport) : Type 0 where
  pub remove_other :
      (s : t.Remote) (k j : String)
      → is_clean k ≡ true
      → is_clean j ≡ true
      → covers_key k j ≡ false
      → object_of ((t.view (t.remove s k).1).get j) ≡ object_of ((t.view s).get j)
  pub remove_shrinks :
      (s : t.Remote) (k j : String)
      → is_clean k ≡ true
      → is_clean j ≡ true
      → ((t.view (t.remove s k).1).get j ≡ (t.view s).get j)
        ⊎ ((t.view (t.remove s k).1).get j ≡ err not_exist)
  pub remove_gone :
      (s : t.Remote) (k j : String)
      → is_clean k ≡ true
      → is_clean j ≡ true
      → forgive (t.remove s k).0 ≡ ok tt
      → covers_key k j ≡ true
      → (j ≡ k) ⊎ (object_of ((t.view s).get k) ≡ none)
      → (t.view (t.remove s k).1).get j ≡ err not_exist
  pub put_other :
      (s : t.Remote) (k j : String) (b : Bytes)
      → is_clean k ≡ true
      → is_clean j ≡ true
      → contains j ".tmp-" ≡ false
      → k ≢ j
      → object_of ((t.view (t.put_atomic s k b).1).get j) ≡ object_of ((t.view s).get j)
  pub put_ok :
      (s : t.Remote) (k : String) (b : Bytes)
      → (t.put_atomic s k b).0 ≡ ok tt
      → (t.view (t.put_atomic s k b).1).get k ≡ ok b
  pub listed :
      (s : t.Remote) (p : String) (keys : List String) → (t.view s).list p ≡ ok keys → Clean keys
  pub listed_dirs :
      (s : t.Remote) (p : String) (keys : List String)
      → is_clean p ≡ true
      → (t.view s).list_dirs p ≡ ok keys
      → Clean keys
  pub listed_shallow :
      (s : t.Remote) (shallow : String → Result (List String)) (p : String) (keys : List String)
      → (t.view s).list_shallow ≡ some shallow
      → is_clean p ≡ true
      → shallow p ≡ ok keys
      → Clean keys

abbrev pub or_missing : Option Bytes → Result Bytes
or_missing none = err not_exist
or_missing (some b) = ok b

unfoldable pub keys_below : String → Dict Bytes → List String
keys_below p [] = []
keys_below p ((k, b) ∷ m) =
    let rest = keys_below p m in if has_prefix k p && is_clean k then k ∷ rest else rest

keys_below-clean : (p : String) (m : Dict Bytes) → Clean (keys_below p m)
unfolding keys_below
keys_below-clean p [] = tt
keys_below-clean p ((k, b) ∷ m) = elim (Bool-cases (has_prefix k p && is_clean k)) [
  | inl e ↦ rw e (ground arith, keys_below-clean p m)
  | inr e ↦ rw e (keys_below-clean p m)
]

unfoldable pub delete_below : String → Dict Bytes → Dict Bytes
delete_below k [] = []
delete_below k ((j, b) ∷ m) =
    let rest = delete_below k m in if covers_key k j then rest else (j, b) ∷ rest

lookup-delete_below :
    (k j : String) (m : Dict Bytes)
    → lookup j (delete_below k m) ≡ (if covers_key k j then none else lookup j m)
unfolding lookup delete_below
lookup-delete_below k j [] = ground arith
lookup-delete_below k j ((i, b) ∷ m) = ground (arith, eq_iff i j, lookup-delete_below k j m)

-- A storage in memory: directories are what keys have in common, and as internal/transport/directory
-- does, a removal takes all that lies in one, and succeeds where there is nothing.
unfoldable pub memory_view : Dict Bytes → View
unfolding keys_below
memory_view m = record {
  list = λ p. ok (keys_below p m);
  list_dirs = λ p. ok [];
  list_shallow = none;
  get = λ k. or_missing (lookup k m);
}

abbrev pub memory : Transport
memory = record {
  Remote = Dict Bytes;
  view = memory_view;
  put_atomic = λ m k b. (ok tt, insert k b m);
  remove = λ m k. (ok tt, delete_below k m);
}

pub memory-Lawful : Lawful memory
unfolding memory_view
memory-Lawful = record {
  remove_other = λ s k j ck cj h. ground (arith, lookup-delete_below k j s);
  remove_shrinks = λ s k j ck cj. elim (Bool-cases (covers_key k j)) [
    | inl e ↦ inr (ground (arith, lookup-delete_below k j s))
    | inr e ↦ inl (ground (arith, lookup-delete_below k j s))
  ];
  remove_gone = λ s k j ck cj fine h at. ground (arith, lookup-delete_below k j s);
  put_other = λ s k j b ck cj temp h. ground (arith, lookup-insert k j b s, eq_iff k j);
  put_ok = λ s k b h. ground (arith, lookup-insert k k b s, eq_iff k k);
  listed = λ s p keys e.
      (let same : keys_below p s ≡ keys = cc e in subst Clean same (keys_below-clean p s));
  listed_dirs = λ s p keys c e. (let same : [] ≡ keys = cc e in subst Clean same tt);
  listed_shallow = λ s shallow p keys e c f. cc e;
}
