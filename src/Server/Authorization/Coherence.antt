-- ===== src/Server/Authorization/Coherence.antt =====
-- The cache of the authorization repository is transparent: the answer is that of the first
-- specification that applies, whatever was asked before.
use cpp_prototype.Common.{
  ◌≡◌, ◌==◌, Bool, refl, ap, ◌∙◌, false, inl, inr, List, [], ◌∷◌, Bytes, Option, none, some, ◌&&◌,
  if◌then◌else◌, arith, Option-cases, Bool-cases,
}
use cpp_prototype.Common.Int.{ℤ}
use cpp_prototype.Common.Key.{bytes_key, ℕ_key, same, same_iff, same_refl}
use cpp_prototype.Common.Map.{Map, find, put, find-put, is_some}
use cpp_prototype.Common.Set.{Set}
use cpp_prototype.Server.Effects.{Regex}
use cpp_prototype.Server.Authorization.{
  Role, role_and, AuthorizationSpec, AuthorizationCache, AuthorizationRepository, or_empty,
  contains, set_entitlements, get, applies, fill, entitlements, make,
}

-- What the cache holds for a user, a topic and a role.
abbrev at_role : Role → Option (Map Role (Set ℤ)) → Option (Set ℤ)
at_role role none = none
at_role role (some roles) = find role roles

abbrev at_topic : Bytes → Role → Option (Map Bytes (Map Role (Set ℤ))) → Option (Set ℤ)
at_topic topic role none = none
at_topic topic role (some topics) = at_role role (find topic topics)

abbrev pub cached : AuthorizationCache → Bytes → Bytes → Role → Option (Set ℤ)
cached cache user topic role = at_topic topic role (find user cache)

-- A specification is for a user, a topic and a role: its patterns match the first two, and its roles
-- have every bit of the third.
abbrev pub is_for : Regex → Bytes → Bytes → Role → AuthorizationSpec → Bool
is_for rx user topic role spec =
    rx.matches spec.user_pattern user
    && rx.matches spec.topic_pattern topic
    && (role_and role spec.roles == role)

applies_lem :
    (rx : Regex) (user topic : Bytes) (role : Role) (spec : AuthorizationSpec)
    → applies rx user topic role spec ≡ is_for rx user topic role spec
unfolding applies
applies_lem rx user topic role spec = refl

-- The entitlements of the first specification that is for all three, and none without one.
abbrev pub granted : Regex → List AuthorizationSpec → Bytes → Bytes → Role → Set ℤ
granted rx [] user topic role = []
granted rx (spec ∷ specs) user topic role =
    if is_for rx user topic role spec then spec.entitlements else granted rx specs user topic role

-- Below one user, and then below one topic.
set_role :
    (t : Bytes) (r : Role) (e : Set ℤ) (topics : Map Bytes (Map Role (Set ℤ))) (t' : Bytes)
    (r' : Role)
    → at_role r' (find t' (put t (put r e (or_empty (find t topics))) topics))
      ≡ (if same t' t && same r' r then some e else at_role r' (find t' topics))
unfolding find
set_role t r e topics t' r' = elim (Option-cases (find t topics)) [
  | inl none_t ↦ ground (
    arith,
    find-put t' t (put r e (or_empty (find t topics))) topics,
    find-put r' r e (or_empty (find t topics)),
    same_iff t' t,
  )
  | inr (roles, some_t) ↦ ground (
    arith,
    find-put t' t (put r e (or_empty (find t topics))) topics,
    find-put r' r e (or_empty (find t topics)),
    same_iff t' t,
  )
]

cached-set_entitlements :
    (u t : Bytes) (r : Role) (e : Set ℤ) (cache : AuthorizationCache) (u' t' : Bytes) (r' : Role)
    → cached (set_entitlements u t r e cache) u' t' r'
      ≡ (if same u' u && same t' t && same r' r then some e else cached cache u' t' r')
unfolding set_entitlements find
cached-set_entitlements u t r e cache u' t' r' =
    let topics = or_empty (find u cache) in
    let new_topics = put t (put r e (or_empty (find t topics))) topics in
    elim (Option-cases (find u cache)) [
      | inl none_u ↦
          ground (arith, find-put u' u new_topics cache, set_role t r e topics t' r', same_iff u' u)
      | inr (ts, some_u) ↦
          ground (arith, find-put u' u new_topics cache, set_role t r e topics t' r', same_iff u' u)
    ]

contains-cached :
    (cache : AuthorizationCache) (u t : Bytes) (r : Role)
    → contains u t r cache ≡ is_some (cached cache u t r)
unfolding contains
contains-cached cache u t r = ground arith

get-cached :
    (cache : AuthorizationCache) (u t : Bytes) (r : Role)
    → (get u t r cache).0 ≡ or_empty (cached cache u t r)
unfolding get find
get-cached cache u t r = ground arith

get-cached_after :
    (cache : AuthorizationCache) (u t : Bytes) (r : Role) (u' t' : Bytes) (r' : Role)
    → cached (get u t r cache).1 u' t' r' ≡ (
        if same u' u && same t' t && same r' r
        then some (or_empty (cached cache u t r))
        else cached cache u' t' r')
unfolding get
get-cached_after cache u t r u' t' r' =
    cached-set_entitlements u t r (get u t r cache).0 cache u' t' r'
    ∙ ap (λ e. if same u' u && same t' t && same r' r then some e else cached cache u' t' r')
        (get-cached cache u t r)

-- The loop on an entry that is missing: after it, the entry reads as what is granted.
fill-granted :
    (rx : Regex) (u t : Bytes) (r : Role) (specs : List AuthorizationSpec)
    (cache : AuthorizationCache)
    → cached cache u t r ≡ none
    → or_empty (cached (fill rx u t r specs cache) u t r) ≡ granted rx specs u t r
unfolding fill
fill-granted rx u t r [] cache h = rw h refl
fill-granted rx u t r (spec ∷ specs) cache h = ground (
  arith,
  applies_lem rx u t r spec,
  fill-granted rx u t r specs cache h,
  cached-set_entitlements u t r spec.entitlements cache u t r,
  same_refl u,
  same_refl t,
  same_refl r,
)

fill-other :
    (rx : Regex) (u t : Bytes) (r : Role) (specs : List AuthorizationSpec)
    (cache : AuthorizationCache) (u' t' : Bytes) (r' : Role)
    → (same u' u && same t' t && same r' r) ≡ false
    → cached (fill rx u t r specs cache) u' t' r' ≡ cached cache u' t' r'
unfolding fill
fill-other rx u t r [] cache u' t' r' h = refl
fill-other rx u t r (spec ∷ specs) cache u' t' r' h = ground (
  arith,
  fill-other rx u t r specs cache u' t' r' h,
  cached-set_entitlements u t r spec.entitlements cache u' t' r',
)

-- Every entry of the cache is what the specifications grant.
pub record IsCoherent (rx : Regex) (r : AuthorizationRepository) : Type 0 where
  pub holds :
      (u t : Bytes) (role : Role) (e : Set ℤ)
      → cached r.cache u t role ≡ some e
      → e ≡ granted rx r.specs u t role

module _ (rx : Regex) (user topic : Bytes) (role : Role) (r : AuthorizationRepository)
    (v : IsCoherent rx r) where
  -- The cache when the loop is over.
  abbrev filled : AuthorizationCache
  filled =
      if contains user topic role r.cache then r.cache else fill rx user topic role r.specs r.cache

  filled-granted : or_empty (cached filled user topic role) ≡ granted rx r.specs user topic role
  filled-granted = elim (Option-cases (cached r.cache user topic role)) [
    | inl missing ↦ ground (
      arith,
      contains-cached r.cache user topic role,
      fill-granted rx user topic role r.specs r.cache missing,
    )
    | inr (e, there) ↦
        ground (arith, contains-cached r.cache user topic role, v.holds user topic role e there)
  ]

  -- With a cache whose entries are what the specifications grant, the entitlements of a user on a
  -- topic in a role are those of the first specification that matches all three, and none where
  -- no specification does.
  pub entitlements-granted :
      (entitlements rx user topic role r).0 ≡ granted rx r.specs user topic role
  unfolding entitlements
  entitlements-granted = get-cached filled user topic role ∙ filled-granted

  other_entry :
      (u t : Bytes) (q : Role)
      → (same u user && same t topic && same q role) ≡ false
      → cached filled u t q ≡ cached r.cache u t q
  other_entry u t q h = ground (arith, fill-other rx user topic role r.specs r.cache u t q h)

  -- Where every entry of the cache is what the specifications grant, that still holds after a
  -- query, which may add an entry.
  pub entitlements-IsCoherent : IsCoherent rx (entitlements rx user topic role r).1
  unfolding entitlements
  entitlements-IsCoherent = record {
    holds = λ u t q e h. elim (Bool-cases (same u user && same t topic && same q role)) [
      | inl asked ↦ ground (
        arith,
        get-cached_after filled user topic role u t q,
        filled-granted,
        same_iff u user,
        same_iff t topic,
        same_iff q role,
      )
      | inr other ↦ ground (
        arith,
        get-cached_after filled user topic role u t q,
        other_entry u t q other,
        v.holds u t q e,
      )
    ];
  }

pub make-IsCoherent : (rx : Regex) (specs : List AuthorizationSpec) → IsCoherent rx (make specs)
unfolding make find
make-IsCoherent rx [] = record { holds = λ u t q e h. cc }
make-IsCoherent rx (spec ∷ specs) = record { holds = λ u t q e h. cc }
