-- ===== src/Server/Authorization/File.antt =====
-- What an authorization file grants, read off its entries.
use cpp_prototype.Common.{
  ◌≡◌, refl, ap, ◌∙◌, Bool, true, false, ◌&&◌, ◌||◌, ◌==◌, if◌then◌else◌, inl, inr, Bool-cases,
  List, [], ◌∷◌, ◌++◌, Bytes, Option, none, some, All, ok, arith,
}
use cpp_prototype.Common.Int.{ℤ}
use cpp_prototype.Common.Key.{ℤ_key}
use cpp_prototype.Common.Map.{Map}
use cpp_prototype.Common.Set
use cpp_prototype.Common.Set.{Set, contains-insert}
use cpp_prototype.Server.Effects.{Regex}
use cpp_prototype.Server.Authorization.{
  Role, role_and, AuthorizationSpec, Authorization, insert_entitlements, make_spec, topic_specs,
  config_specs,
}
use cpp_prototype.Server.Authorization.Coherence.{granted}

-- A decoded file: for each user pattern, what it grants for each topic pattern.
abbrev pub Config : Type 0
Config = Map Bytes (Map Bytes Authorization)

-- An entitlement of an entry, and otherwise what comes after.
abbrev pub or_else : Option (List ℤ) → ℤ → Bool → Bool
or_else none e after = after
or_else (some es) e after = Set.contains e es

module _ (rx : Regex) where
  -- The patterns of the entries compile.
  abbrev pub TopicsCompile : Bytes → Map Bytes Authorization → Type 0
  TopicsCompile user_pattern =
      All (λ (x : Bytes × Authorization).
        (rx.is_valid user_pattern ≡ true) × (rx.is_valid x.0 ≡ true))

  abbrev pub Compiles : Config → Type 0
  Compiles = All (λ (x : Bytes × Map Bytes Authorization). TopicsCompile x.0 x.1)

  contains-insert_entitlements :
      (e : ℤ) (es : List ℤ) (s : Set ℤ)
      → Set.contains e (insert_entitlements es s) ≡ (Set.contains e es || Set.contains e s)
  unfolding insert_entitlements Set.contains
  contains-insert_entitlements e [] s = refl
  contains-insert_entitlements e (i ∷ es) s =
      ground (arith, contains-insert_entitlements e es (Set.insert i s), contains-insert e i s)

  set_of_entry :
      (e : ℤ) (es : List ℤ) → Set.contains e (insert_entitlements es []) ≡ Set.contains e es
  unfolding Set.contains
  set_of_entry e es = ground (arith, contains-insert_entitlements e es [])

  -- The specification of an entry.
  abbrev spec_of : Bytes → Bytes × Authorization → AuthorizationSpec
  spec_of user_pattern (topic_pattern, a) = record {
    user_pattern = user_pattern;
    topic_pattern = topic_pattern;
    entitlements = insert_entitlements a.entitlements [];
    roles = a.role;
  }

  abbrev specs_of : Bytes → Map Bytes Authorization → List AuthorizationSpec
  specs_of user_pattern [] = []
  specs_of user_pattern (x ∷ m) = spec_of user_pattern x ∷ specs_of user_pattern m

  abbrev pub file_specs : Config → List AuthorizationSpec
  file_specs [] = []
  file_specs ((user_pattern, topics) ∷ m) = specs_of user_pattern topics ++ file_specs m

  make_spec-spec_of :
      (user_pattern : Bytes) (x : Bytes × Authorization)
      → rx.is_valid user_pattern ≡ true
      → rx.is_valid x.0 ≡ true
      → make_spec rx user_pattern x.0 (insert_entitlements x.1.entitlements []) x.1.role
        ≡ ok (spec_of user_pattern x)
  unfolding make_spec
  make_spec-spec_of user_pattern (topic_pattern, a) u t = rw (u, t) refl

  topic_specs-specs_of :
      (user_pattern : Bytes) (topics : Map Bytes Authorization)
      → TopicsCompile user_pattern topics
      → topic_specs rx user_pattern topics ≡ ok (specs_of user_pattern topics)
  unfolding topic_specs
  topic_specs-specs_of user_pattern [] h = refl
  topic_specs-specs_of user_pattern (x ∷ m) h =
      rw (make_spec-spec_of user_pattern x h.0.0 h.0.1, topic_specs-specs_of user_pattern m h.1)
        refl

  pub config_specs-file_specs :
      (config : Config) → Compiles config → config_specs rx config ≡ ok (file_specs config)
  unfolding config_specs
  config_specs-file_specs [] h = refl
  config_specs-file_specs ((user_pattern, topics) ∷ m) h =
      rw (topic_specs-specs_of user_pattern topics h.0, config_specs-file_specs m h.1) refl

  module _ (user topic : Bytes) (role : Role) where
    -- The first entry whose patterns match the user and the topic, and whose roles have all bits of
    -- the role.
    abbrev pub topic_entry : Bytes → Map Bytes Authorization → Option (List ℤ)
    topic_entry user_pattern [] = none
    topic_entry user_pattern ((topic_pattern, a) ∷ m) =
        let rest = topic_entry user_pattern m in
        if rx.matches user_pattern user
          && rx.matches topic_pattern topic
          && (role_and role a.role == role)
        then some a.entitlements
        else rest

    -- The entitlements that the file grants: those of the first such entry, under the first user
    -- pattern that has one.
    abbrev pub file_grants : Config → ℤ → Bool
    file_grants [] e = false
    file_grants ((user_pattern, topics) ∷ m) e =
        or_else (topic_entry user_pattern topics) e (file_grants m e)

    granted-specs_of :
        (e : ℤ) (user_pattern : Bytes) (topics : Map Bytes Authorization)
        (rest : List AuthorizationSpec)
        → Set.contains e (granted rx (specs_of user_pattern topics ++ rest) user topic role)
          ≡ or_else
              (topic_entry user_pattern topics)
              e
              (Set.contains e (granted rx rest user topic role))
    granted-specs_of e user_pattern [] rest = refl
    granted-specs_of e user_pattern ((topic_pattern, a) ∷ m) rest =
        elim (Bool-cases (
          rx.matches user_pattern user
          && rx.matches topic_pattern topic
          && (role_and role a.role == role))) [
            | inl h ↦ rw h (set_of_entry e a.entitlements)
            | inr h ↦ rw h (granted-specs_of e user_pattern m rest)
          ]

    pub granted-file_specs :
        (e : ℤ) (config : Config)
        → Set.contains e (granted rx (file_specs config) user topic role) ≡ file_grants config e
    unfolding Set.contains
    granted-file_specs e [] = refl
    granted-file_specs e ((user_pattern, topics) ∷ m) =
        granted-specs_of e user_pattern topics (file_specs m)
        ∙ ap (or_else (topic_entry user_pattern topics) e) (granted-file_specs e m)
