-- ===== src/Server/Authorization.antt =====
-- src/server: role.hpp, authorization_spec.hpp, authorization_cache.cpp, authorization_repository.cpp
-- and authorization_manager.cpp.
pub mod Coherence
pub mod File
use Prim.Native.Nat.{bit_and, bit_or, bit_xor}
use cpp_prototype.Common.{
  ℕ, Bool, true, false, List, [], ◌∷◌, ◌++◌, Bytes, Option, none, some, ◌&&◌, ◌==◌, if◌then◌else◌,
  Outcome, ok, err, ◌>>=◌, regex_error,
}
use cpp_prototype.Common.Int.{ℤ, pos}
use cpp_prototype.Common.Key.{bytes_key, ℕ_key, ℤ_key}
use cpp_prototype.Common.Map.{Map, find, put}
use cpp_prototype.Common.Set
use cpp_prototype.Common.Set.{Set}
use cpp_prototype.Server.Effects.{Regex}

-- The value of a `Role`, a set of three bits.
abbrev pub Role : Type 0
Role = ℕ

abbrev pub role_none : Role
role_none = 0x00

abbrev pub subscriber : Role
subscriber = 0x01

abbrev pub publisher : Role
publisher = 0x02

abbrev pub notifier : Role
notifier = 0x04

abbrev pub role_all : Role
role_all = 0x07

abbrev pub role_and : Role → Role → Role
role_and x y = bit_and x y

abbrev pub role_or : Role → Role → Role
role_or x y = bit_or x y

-- The regular expressions of a specification are those of its two patterns.
pub record AuthorizationSpec : Type 0 where
  pub user_pattern : Bytes
  pub topic_pattern : Bytes
  pub entitlements : Set ℤ
  pub roles : Role

-- `authorizations_[user][topic][role]`
abbrev pub AuthorizationCache : Type 0
AuthorizationCache = Map Bytes (Map Bytes (Map Role (Set ℤ)))

abbrev pub or_empty {ℓ} : {A : Type ℓ} → Option (List A) → List A
or_empty none = []
or_empty (some xs) = xs

-- `AuthorizationCache::contains`
unfoldable pub contains : Bytes → Bytes → Role → AuthorizationCache → Bool
contains user topic role cache = elim (find user cache) [
  | none ↦ false
  | some topics ↦ elim (find topic topics) [
    | none ↦ false
    | some roles ↦ elim (find role roles) [ none ↦ false | some _ ↦ true ]
  ]
]

-- `AuthorizationCache::set`: `operator[]` adds what is missing.
unfoldable pub set_entitlements :
    Bytes → Bytes → Role → Set ℤ → AuthorizationCache → AuthorizationCache
set_entitlements user topic role entitlements cache =
    let topics = or_empty (find user cache) in
    let roles = or_empty (find topic topics) in
    put user (put topic (put role entitlements roles) topics) cache

-- `AuthorizationCache::get`, with the cache after: an entry that is missing is added, empty.
unfoldable pub get : Bytes → Bytes → Role → AuthorizationCache → Set ℤ × AuthorizationCache
unfolding set_entitlements
get user topic role cache =
    let found = or_empty (find role (or_empty (find topic (or_empty (find user cache))))) in
    (found, set_entitlements user topic role found cache)

pub record AuthorizationRepository : Type 0 where
  pub specs : List AuthorizationSpec
  pub cache : AuthorizationCache

-- The three tests in the loop of `entitlements`.
unfoldable pub applies : Regex → Bytes → Bytes → Role → AuthorizationSpec → Bool
applies rx user topic role spec =
    rx.matches spec.user_pattern user
    && rx.matches spec.topic_pattern topic
    && (role_and role spec.roles == role)

-- The loop: the first specification that applies is cached.
unfoldable pub fill :
    Regex → Bytes → Bytes → Role → List AuthorizationSpec → AuthorizationCache → AuthorizationCache
unfolding applies
fill rx user topic role [] cache = cache
fill rx user topic role (spec ∷ specs) cache =
    let rest = fill rx user topic role specs cache in
    if applies rx user topic role spec
    then set_entitlements user topic role spec.entitlements cache
    else rest

-- `AuthorizationRepository::entitlements`, with the repository after: its cache is mutable.
unfoldable pub entitlements :
    Regex → Bytes → Bytes → Role → AuthorizationRepository → Set ℤ × AuthorizationRepository
entitlements rx user topic role r =
    let cache =
      if contains user topic role r.cache
      then r.cache
      else fill rx user topic role r.specs r.cache in
    let (found, cache') = get user topic role cache in (found, record r { cache = cache' })

-- `AuthorizationRepository::make` without a file: the specifications of the command line, or a
-- default that allows entitlement 0 to all.
unfoldable pub default_spec : AuthorizationSpec
default_spec = record {
  user_pattern = b'.' ∷ b'*' ∷ [];
  topic_pattern = b'.' ∷ b'*' ∷ [];
  entitlements = pos 0 ∷ [];
  roles = role_all;
}

unfoldable pub make : List AuthorizationSpec → AuthorizationRepository
unfolding default_spec
make [] = record { specs = default_spec ∷ []; cache = [] }
make (spec ∷ specs) = record { specs = spec ∷ specs; cache = [] }

-- authorization_yaml.hpp: what the YAML library decodes for a user and a topic.
pub record Authorization : Type 0 where
  pub entitlements : List ℤ
  pub role : Role

unfoldable pub insert_entitlements : List ℤ → Set ℤ → Set ℤ
insert_entitlements [] s = s
insert_entitlements (e ∷ es) s = insert_entitlements es (Set.insert e s)

-- The constructor of a specification compiles both of its patterns.
unfoldable pub make_spec : Regex → Bytes → Bytes → Set ℤ → Role → Outcome AuthorizationSpec
make_spec rx user_pattern topic_pattern entitlements roles =
    if rx.is_valid user_pattern && rx.is_valid topic_pattern
    then ok (record {
      user_pattern = user_pattern;
      topic_pattern = topic_pattern;
      entitlements = entitlements;
      roles = roles;
    })
    else err regex_error

-- The loops of `AuthorizationRepository::load`, over a decoded file.
unfoldable pub topic_specs :
    Regex → Bytes → Map Bytes Authorization → Outcome (List AuthorizationSpec)
unfolding insert_entitlements make_spec
topic_specs rx user_pattern [] = ok []
topic_specs rx user_pattern ((topic_pattern, a) ∷ m) =
    make_spec rx user_pattern topic_pattern (insert_entitlements a.entitlements []) a.role
    >>= (λ spec. topic_specs rx user_pattern m >>= (λ specs. ok (spec ∷ specs)))

unfoldable pub config_specs :
    Regex → Map Bytes (Map Bytes Authorization) → Outcome (List AuthorizationSpec)
unfolding topic_specs
config_specs rx [] = ok []
config_specs rx ((user_pattern, authorizations) ∷ m) =
    topic_specs rx user_pattern authorizations
    >>= (λ specs. config_specs rx m >>= (λ rest. ok (specs ++ rest)))

pub record AuthorizationManager : Type 0 where
  pub path : Option Bytes
  pub cmd_line_specs : List AuthorizationSpec
  pub repository : AuthorizationRepository

-- The constructor of the manager: its repository has no specifications until `load`.
unfoldable pub construct : Option Bytes → List AuthorizationSpec → AuthorizationManager
construct path cmd_line_specs = record {
  path = path;
  cmd_line_specs = cmd_line_specs;
  repository = record { specs = []; cache = [] };
}

-- `AuthorizationManager::load`: a new repository, its cache empty. `yaml` is the content of a file,
-- or the exception of the YAML library.
unfoldable pub load :
    Regex
    → (Bytes → Outcome (Map Bytes (Map Bytes Authorization)))
    → AuthorizationManager
    → Outcome AuthorizationManager
load rx yaml m = elim m.path [
  | none ↦ ok (record m { repository = make m.cmd_line_specs })
  | some path ↦
      yaml path
      >>= config_specs rx
      >>= (λ specs. ok (record m { repository = record { specs = specs; cache = [] } }))
]
