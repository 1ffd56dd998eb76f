-- ===== src/Logging/Laws.antt =====
-- Levels and their names, and the secret that a log line names.
use vault_unsealer.Prelude.{
  zero, suc, ℤ, pos, negsuc, ◌≡◌, refl, sym, ap, ◌∙◌, ◌⊎◌, inl, inr, [], ◌∷◌, ◌++◌, if◌then◌else◌,
}
use vault_unsealer.Text.{Text, codes, text_eq}
use vault_unsealer.Api.{SecretRef}
use vault_unsealer.Cluster.{Env, Trace, get_secret, ◌>>=◌, pure}
use vault_unsealer.Secrets.Loader.{namespaced_name, load_keys_from_secret}
use vault_unsealer.Logging.{Fields, text, with_secret, level_name}

-- What a name says of the level.
read_level : Text → ℤ
read_level name =
    if text_eq name (codes "debug")
    then pos 0
    else if text_eq name (codes "info")
    then pos 1
    else if text_eq name (codes "warning")
    then pos 2
    else if text_eq name (codes "error")
    then pos 3
    else negsuc 0

-- A name gives the level back, or is that of no level.
read_level-level_name : (l : ℤ) → (read_level (level_name l) ≡ l) ⊎ (level_name l ≡ codes "unknown")
unfolding read_level level_name text_eq
read_level-level_name (pos zero) = inl refl
read_level-level_name (pos (suc zero)) = inl refl
read_level-level_name (pos (suc (suc zero))) = inl refl
read_level-level_name (pos (suc (suc (suc zero)))) = inl refl
read_level-level_name (pos (suc (suc (suc (suc n))))) = inr refl
read_level-level_name (negsuc n) = inr refl

-- Two levels with one name are the same, unless the name is "unknown".
pub level_name-injective :
    (l k : ℤ) → level_name l ≡ level_name k → (l ≡ k) ⊎ (level_name l ≡ codes "unknown")
level_name-injective l k same = elim (read_level-level_name l) [
  | inr unknown ↦ inr unknown
  | inl first ↦ elim (read_level-level_name k) [
    | inr unknown ↦ inr (same ∙ unknown)
    | inl second ↦ inl (sym first ∙ ap read_level same ∙ second)
  ]
]

-- A logger, and the fields that it adds to each line: those of WithValues stand behind the others.
pub record LoggerLaws (Logger : Type 0) (with_values : Logger → Fields → Logger) : Type 0 where
  pub fields : Logger → Fields
  pub fields-with_values :
      (logger : Logger) (new : Fields) → fields (with_values logger new) ≡ fields logger ++ new

-- With a logger that keeps its fields, the secret and the namespace that WithSecret adds are those
-- that the loader asks for when it reads the same reference with the same default namespace.
pub with_secret-load_keys_from_secret :
    {Logger : Type 0} (with_values : Logger → Fields → Logger)
    (laws : LoggerLaws Logger with_values) (logger : Logger) (env : Env) (ref : SecretRef)
    (namespace : Text) (t : Trace)
    → (let id = namespaced_name namespace ref in
        ((load_keys_from_secret env namespace ref t).1 ≡ get_secret id ∷ t)
        × (laws.fields (with_secret with_values logger ref namespace)
            ≡ laws.fields logger
              ++ ((codes "secret", text id.name)
                  ∷ (codes "secretNamespace", text id.namespace)
                  ∷ (codes "secretKey", text ref.key)
                  ∷ [])))
unfolding load_keys_from_secret namespaced_name ◌>>=◌ pure
with_secret-load_keys_from_secret with_values laws logger env ref namespace t =
    (refl, laws.fields-with_values logger _)
