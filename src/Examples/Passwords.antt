-- ===== src/Examples/Passwords.antt =====
-- The authentication manager and the tokens at concrete inputs.
use cpp_prototype.Common.{◌≡◌, ◌⊎◌, refl, [], ◌∷◌, Bytes, replicate, none, some, ok}
use cpp_prototype.Common.Key.{bytes_key, lexicographic}
use cpp_prototype.Common.Map.{find}
use cpp_prototype.Serialization.BasicToken.{decode_basic_token}
use cpp_prototype.Messages.Message.{AuthenticationRequest}
use cpp_prototype.Server.Authentication.{
  AuthenticationManager, encrypt_data, nobody, authenticate_none, authenticate, method_none,
}
use cpp_prototype.Server.Authentication.Passwords.{entry, authenticate_sound}

-- A digest that is always the same.
abbrev pub md5 : Bytes → Bytes
md5 bytes = replicate 16 7

abbrev pub tom : Bytes
tom = b't' ∷ b'o' ∷ b'm' ∷ []

abbrev pub secret : Bytes
secret = b'x' ∷ b':' ∷ b'y' ∷ []

abbrev pub salt : Bytes
salt = b's' ∷ b'a' ∷ []

abbrev pub manager : AuthenticationManager
manager = record { entries = (tom, entry md5 secret salt) ∷ []; password_file = some (b'f' ∷ []) }

-- A manager without a password file, and a request that it grants.
abbrev open_manager : AuthenticationManager
open_manager = record { entries = []; password_file = none }

abbrev request : AuthenticationRequest
request = record { method = method_none; payload = [] }

authenticate_sound_example :
    ((request.method ≡ method_none) × (open_manager.password_file ≡ none) × (nobody ≡ nobody))
    ⊎ ((password data_ : Bytes) × (decode_basic_token request.payload ≡ ok (nobody, password))
        × (find nobody open_manager.entries ≡ some data_)
        × (encrypt_data md5 password data_ ≡ ok data_))
unfolding authenticate authenticate_none lexicographic
authenticate_sound_example = authenticate_sound md5 open_manager request nobody refl
