-- ===== src/Config/EnvFile/Lines.antt =====
-- What becomes of the lines of the .env file.
use my_home_index_server.Prelude.{
  ◌≡◌, refl, ap, sym, ◌∙◌, ◌⊎◌, inl, inr, Bool, true, false, not, ◌||◌, Option, none, some, List,
  [], ◌∷◌, ◌++◌, arith,
}
use mathlib.Core.Path.{subst}
use my_home_index_server.Prelude.Tests.{Bool-cases, Option-cases}
use my_home_index_server.Prelude.Lists.{All, select}
use my_home_index_server.Prelude.Bytes.{Bytes, bytes_eq_iff}
use my_home_index_server.Prelude.Dict.{Dict, lookup, lookup-All}
use my_home_index_server.Config.EnvFile.{
  Setting, setting_of, setting_line, replaced, rewrite_setting, rewrite_lines, sets_key, is_seen,
  missing_lines,
}
use my_home_index_server.Config.EnvFile.Keys.{IsName, IsSecret, setting_of-setting_line}

-- Names with secrets, as `Load` generates them.
abbrev pub AreSecrets : Dict Bytes → Type 0
AreSecrets = All (λ e. IsName (e.0) × IsSecret (e.1))

is_found : Option Bytes → Bool
is_found none = false
is_found (some v) = true

has_key : Dict Bytes → Option Setting → Bool
unfolding is_found
has_key kv none = false
has_key kv (some s) = is_found (lookup s.key kv)

-- The line sets no key of the map.
unfoldable pub is_other : Dict Bytes → Bytes → Bool
unfolding has_key
is_other kv line = not (has_key kv (setting_of line))

-- If the line sets a key of the map, it sets it to the value there.
abbrev pub HasValue : Dict Bytes → Bytes → Type 0
HasValue kv line =
    (s : Setting) (v : Bytes)
    → setting_of line ≡ some s
    → lookup s.key kv ≡ some v
    → line ≡ setting_line s v

-- The entries of a part of the map that stand in the map.
unfoldable pub Stand : Dict Bytes → Dict Bytes → Type 0
Stand kv = All (λ e. lookup (e.0) kv ≡ some (e.1))

-- The line sets a key of the map.
pub record Sets (kv : Dict Bytes) (line : Bytes) : Type 0 where
  pub setting : Setting
  pub value : Bytes
  pub parsed : setting_of line ≡ some setting
  pub found : lookup setting.key kv ≡ some value

pub line_cases : (kv : Dict Bytes) (line : Bytes) → (is_other kv line ≡ true) ⊎ Sets kv line
unfolding is_other
line_cases kv line = elim (Option-cases (setting_of line)) [
  | inl e ↦ inl (rw e refl)
  | inr (s, e) ↦ elim (Option-cases (lookup s.key kv)) [
    | inl k ↦ inl (rw (e, k) refl)
    | inr (v, k) ↦ inr (record { setting = s; value = v; parsed = e; found = k })
  ]
]

module _ (kv : Dict Bytes) (secrets : AreSecrets kv) where
  pub rewrite_other :
      (line : Bytes) → is_other kv line ≡ true → rewrite_setting kv line (setting_of line) ≡ line
  unfolding is_other rewrite_setting replaced
  rewrite_other line h = elim (Option-cases (setting_of line)) [
    | inl e ↦ rw e refl
    | inr (s, e) ↦ elim (Option-cases (lookup s.key kv)) [
      | inl k ↦ rw (e, k) refl
      | inr (v, k) ↦ cc (h, e, k)
    ]
  ]

  pub rewrite_sets :
      (line : Bytes) (h : Sets kv line)
      → rewrite_setting kv line (setting_of line) ≡ setting_line h.setting h.value
  unfolding rewrite_setting replaced
  rewrite_sets line h = rw (h.parsed, h.found) refl

  -- A written line sets its key.
  written :
      (line : Bytes) (h : Sets kv line)
      → setting_of (setting_line h.setting h.value) ≡ some h.setting
  written line h =
      let (name, secret) =
        lookup-All (λ k v. IsName k × IsSecret v) kv h.setting.key h.value secrets h.found in
      setting_of-setting_line h.setting.exported h.setting.key h.value name secret

  HasValue-setting :
      (t : Setting) (w line : Bytes)
      → setting_of line ≡ some t
      → lookup t.key kv ≡ some w
      → line ≡ setting_line t w
      → HasValue kv line
  HasValue-setting t w line parsed there e s v f k =
      let same : t ≡ s = cc (parsed, f) in
      let value : w ≡ v = cc (there, k, ap (λ u. lookup (u.key) kv) same) in
      e ∙ ap (λ u. setting_line u w) same ∙ ap (setting_line s) value

  HasValue-rewrite : (line : Bytes) → HasValue kv (rewrite_setting kv line (setting_of line))
  unfolding is_other
  HasValue-rewrite line = elim (line_cases kv line) [
    | inl other ↦ subst (HasValue kv) (sym (rewrite_other line other)) (λ s v e k. cc (other, e, k))
    | inr h ↦
        subst (HasValue kv) (sym (rewrite_sets line h))
          (HasValue-setting h.setting h.value _ (written line h) h.found refl)
  ]

  -- A rewritten line sets what it set before.
  setting_of-rewrite :
      (line : Bytes) → setting_of (rewrite_setting kv line (setting_of line)) ≡ setting_of line
  setting_of-rewrite line = elim (line_cases kv line) [
    | inl other ↦ ap setting_of (rewrite_other line other)
    | inr h ↦ ap setting_of (rewrite_sets line h) ∙ written line h ∙ sym h.parsed
  ]

  pub HasValue-rewrite_lines : (ls : List Bytes) → All (HasValue kv) (rewrite_lines kv ls)
  unfolding rewrite_lines
  HasValue-rewrite_lines [] = tt
  HasValue-rewrite_lines (line ∷ ls) = (HasValue-rewrite line, HasValue-rewrite_lines ls)

  pub is_seen-rewrite_lines :
      (k : Bytes) (ls : List Bytes) → is_seen k (rewrite_lines kv ls) ≡ is_seen k ls
  unfolding rewrite_lines is_seen
  is_seen-rewrite_lines k [] = refl
  is_seen-rewrite_lines k (line ∷ ls) =
      rw (setting_of-rewrite line, is_seen-rewrite_lines k ls) refl

  sets_not_other : (line : Bytes) → Sets kv line → is_other kv line ≡ false
  unfolding is_other
  sets_not_other line h = rw (h.parsed, h.found) refl

  rewrite_sets_same :
      (line : Bytes) → Sets kv line → Sets kv (rewrite_setting kv line (setting_of line))
  rewrite_sets_same line h = record {
    setting = h.setting;
    value = h.value;
    parsed = setting_of-rewrite line ∙ h.parsed;
    found = h.found;
  }

  pub kept_in_place :
      (ls : List Bytes) → select (is_other kv) (rewrite_lines kv ls) ≡ select (is_other kv) ls
  unfolding rewrite_lines
  kept_in_place [] = refl
  kept_in_place (line ∷ ls) = elim (line_cases kv line) [
    | inl other ↦ rw (rewrite_other line other, other) (ap (λ t. line ∷ t) (kept_in_place ls))
    | inr h ↦
        rw (sets_not_other line h, sets_not_other _ (rewrite_sets_same line h)) (kept_in_place ls)
  ]

  rewrite_same :
      (line : Bytes) → HasValue kv line → rewrite_setting kv line (setting_of line) ≡ line
  rewrite_same line h = elim (line_cases kv line) [
    | inl other ↦ rewrite_other line other
    | inr k ↦ rewrite_sets line k ∙ sym (h k.setting k.value k.parsed k.found)
  ]

  pub rewrite_lines_same : (ls : List Bytes) → All (HasValue kv) ls → rewrite_lines kv ls ≡ ls
  unfolding rewrite_lines
  rewrite_lines_same [] h = refl
  rewrite_lines_same (line ∷ ls) h =
      rw (rewrite_same line h.0) (ap (λ t. line ∷ t) (rewrite_lines_same ls h.1))

  Sets-missing :
      (k v : Bytes) → IsName k × IsSecret v → lookup k kv ≡ some v → Sets kv (k ++ (b'=' ∷ v))
  Sets-missing k v h there = record {
    setting = record { exported = false; key = k };
    value = v;
    parsed = setting_of-setting_line false k v h.0 h.1;
    found = there;
  }

  module _ (ls : List Bytes) where
    pub HasValue-missing_lines :
        (m : Dict Bytes) → AreSecrets m → Stand kv m → All (HasValue kv) (missing_lines ls m)
    unfolding missing_lines Stand Sets-missing
    HasValue-missing_lines [] h there = tt
    HasValue-missing_lines ((k, v) ∷ m) h there = elim (Bool-cases (is_seen k ls)) [
      | inl seen ↦ simp seen (HasValue-missing_lines m h.1 there.1)
      | inr new ↦
          let set = Sets-missing k v h.0 there.0 in
          simp new (
            HasValue-setting set.setting v (k ++ (b'=' ∷ v)) set.parsed there.0 refl,
            HasValue-missing_lines m h.1 there.1,
          )
    ]

    pub select-missing_lines :
        (m : Dict Bytes)
        → AreSecrets m
        → Stand kv m
        → select (is_other kv) (missing_lines ls m) ≡ []
    unfolding missing_lines Stand
    select-missing_lines [] h there = refl
    select-missing_lines ((k, v) ∷ m) h there = elim (Bool-cases (is_seen k ls)) [
      | inl seen ↦ simp seen (select-missing_lines m h.1 there.1)
      | inr new ↦
          simp (new, sets_not_other _ (Sets-missing k v h.0 there.0))
            (select-missing_lines m h.1 there.1)
    ]

    -- Every key of the part is set, by an old line or by a new one.
    pub seen_or_missing :
        (m : Dict Bytes) (k v : Bytes)
        → AreSecrets m
        → lookup k m ≡ some v
        → (is_seen k ls || is_seen k (missing_lines ls m)) ≡ true
    unfolding missing_lines is_seen sets_key lookup
    seen_or_missing [] k v h e = cc
    seen_or_missing ((j, w) ∷ m) k v h e =
        let set = setting_of-setting_line false j w h.0.0 h.0.1 in
        let later = seen_or_missing m k v h.1 in ground (arith, e, set, later, bytes_eq_iff j k)

    pub all_seen : (m : Dict Bytes) → All (λ e. is_seen (e.0) ls ≡ true) m → missing_lines ls m ≡ []
    unfolding missing_lines
    all_seen [] h = refl
    all_seen ((k, v) ∷ m) h = rw (h.0) (all_seen m h.1)
