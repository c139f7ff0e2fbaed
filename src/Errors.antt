-- ===== src/Errors.antt =====
-- src/core/error.rs: the errors of the library, and results that carry them.
use scriptmetakit.Chars.{Text, codes}
use scriptmetakit.Paths.{FilePath}
use scriptmetakit.Prelude.{◌≡◌, refl, ◌⊎◌, inl, inr}

pub data ScriptMetaKitError : Type 0 where
  invalid_config parse url timeout cache cache_incompatible conflict not_implemented :
      Text → ScriptMetaKitError
  io : FilePath → Text → ScriptMetaKitError

-- `ScriptMetaKitError::code`.
pub error_code : ScriptMetaKitError → Text
error_code (invalid_config _) = codes "invalid_config"
error_code (parse _) = codes "parse_error"
error_code (url _) = codes "url_error"
error_code (io _ _) = codes "io_error"
error_code (timeout _) = codes "timeout"
error_code (cache _) = codes "cache_error"
error_code (cache_incompatible _) = codes "cache_incompatible"
error_code (conflict _) = codes "conflict"
error_code (not_implemented _) = codes "not_implemented"

pub data ScriptMetaKitResult {ℓ} (A : Type ℓ) : Type ℓ where
  ok : A → ScriptMetaKitResult A
  err : ScriptMetaKitError → ScriptMetaKitResult A

pub ok_inj {ℓ} : {A : Type ℓ} {a b : A} → ok a ≡ ok b → a ≡ b
ok_inj h = cc

pub Result-cases {ℓ} :
    {A : Type ℓ} (r : ScriptMetaKitResult A)
    → ((a : A) × (r ≡ ok a)) ⊎ ((e : ScriptMetaKitError) × (r ≡ err e))
Result-cases (ok a) = inl (a, refl)
Result-cases (err e) = inr (e, refl)
