-- ===== src/Server/Headers/Redirects.antt =====
-- Where a login can send the browser.
use my_home_index_server.Prelude.{◌≡◌, refl, ◌⊎◌, inl, inr, false, [], ◌∷◌, arith}
use my_home_index_server.Prelude.Tests.{Bool-cases, ◌==◌}
use my_home_index_server.Prelude.Bytes.{Bytes, codes, has_prefix}
use my_home_index_server.Server.Headers.{sanitise_next}

-- A path from the root of the server: one slash, and no second one behind it.
pub record IsLocal (v : Bytes) : Type 0 where
  pub rest : Bytes
  pub begins : v ≡ b'/' ∷ rest
  pub single : has_prefix rest (codes "/") ≡ false

-- `sanitiseNext` keeps a local path as it is, and makes anything else empty.
pub sanitise_next-IsLocal :
    (v : Bytes) → ((sanitise_next v ≡ v) × IsLocal v) ⊎ ((sanitise_next v ≡ []) × (¬ IsLocal v))
unfolding sanitise_next has_prefix
sanitise_next-IsLocal [] = inr (refl, λ l. cc (l.begins))
sanitise_next-IsLocal (b ∷ rest) = elim (Bool-cases (b == b'/')) [
  | inr other ↦ inr (ground arith, λ l. ground arith)
  | inl slash ↦ elim (Bool-cases (has_prefix rest (codes "/"))) [
    | inl double ↦ inr (ground arith, λ l. ground arith)
    | inr single ↦
        inl (ground arith, record { rest = rest; begins = ground arith; single = single })
  ]
]
