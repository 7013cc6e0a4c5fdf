-- ===== src/Sync/Transport.antt =====
-- internal/transport/transport.go: object storage as the sync code sees it. The backends are behind
-- this interface; what they answer is a parameter of everything that calls them.
pub mod Laws
use remnix.Prelude.{String, Option, List}
use remnix.Prelude.Result.{Result, ok, err, not_exist, failed}

-- The content of an object. Go's `[]byte` carries no more structure for the sync code.
abbrev pub Bytes : Type 0
Bytes = String

-- The reading methods of `Transport` at one state of the storage. Contexts and object sizes are not
-- read by the callers that are modelled, so an object of a listing is its key. `list_shallow` is the
-- optional method of `shallowLister`.
pub record View : Type 0 where
  pub list : String → Result (List String)
  pub list_dirs : String → Result (List String)
  pub list_shallow : Option (String → Result (List String))
  pub get : String → Result Bytes

-- `Transport`: its reads, and its writes as functions of the storage's state.
pub record Transport : Type 1 where
  pub Remote : Type 0
  pub view : Remote → View
  pub put_atomic : Remote → String → Bytes → Result (Unit {0}) × Remote
  pub remove : Remote → String → Result (Unit {0}) × Remote

-- What `DeleteIfExists` makes of the answer of `Remove`: a missing object is success.
unfoldable pub forgive : Result (Unit {0}) → Result (Unit {0})
forgive (ok u) = ok u
forgive (err not_exist) = ok tt
forgive (err (failed m)) = err (failed m)

unfoldable pub delete_if_exists : (t : Transport) → t.Remote → String → Result (Unit {0}) × t.Remote
unfolding forgive
delete_if_exists t s key = let r = t.remove s key in (forgive r.0, r.1)
