-- ===== src/Server/Sound.antt =====
-- The invariants of the parts of a server, together.
use my_home_index_server.Prelude.{Bool, true, false, Option, none, some}
use my_home_index_server.Prelude.Tests.{if◌then◌else◌}
use my_home_index_server.Auth.{Auth}
use my_home_index_server.Auth.Limiter.Bound.{IsBounded}
use my_home_index_server.Store.{Store}
use my_home_index_server.Store.Ops.Invariant.{IsValid}
use my_home_index_server.Server.{Server, Effect}

abbrev pub AuthIsBounded : Option Auth → Type 0
AuthIsBounded none = Unit
AuthIsBounded (some a) = IsBounded a

abbrev pub StoreIsValid : Option Store → Type 0
StoreIsValid none = Unit
StoreIsValid (some st) = IsValid st.content

-- The limiter has at most ten thousand addresses, and the store is within its limits.
pub record IsSound (s : Server) : Type 0 where
  pub bounded : AuthIsBounded s.auth
  pub valid : StoreIsValid s.store

pub if-IsSound :
    (b : Bool) (x y : Effect)
    → IsSound x.server
    → IsSound y.server
    → IsSound (if b then x else y).server
if-IsSound true x y vx vy = vx
if-IsSound false x y vx vy = vy
