-- ===== src/Api/Scheme.antt =====
-- api/v1alpha1/groupversion_info.go, and the list type and init of vaultunsealer_types.go: what
-- AddToScheme adds to a scheme. A scheme.Builder is the group version that it is made with and the
-- types that are registered with it, in order; adding them to a scheme is a step of cmd/main.go.
use vault_unsealer.Prelude.{List, [], ◌∷◌, ◌++◌}
use vault_unsealer.Text.{Text, codes}
use vault_unsealer.Api.{VaultUnsealer}

pub record GroupVersion : Type 0 where
  pub group : Text
  pub version : Text

pub record VaultUnsealerList : Type 0 where
  pub items : List VaultUnsealer

-- the types of `&VaultUnsealer{}` and `&VaultUnsealerList{}`
pub data ApiType : Type 0 where
  unsealer : ApiType
  unsealer_list : ApiType

pub record Builder : Type 0 where
  pub group_version : GroupVersion
  pub registered : List ApiType

-- Register
abbrev pub register : List ApiType → Builder → Builder
register types builder = record builder { registered = builder.registered ++ types }

abbrev pub group_version : GroupVersion
group_version = record { group = codes "ops.autounseal.vault.io"; version = codes "v1alpha1" }

abbrev new_builder : Builder
new_builder = record { group_version = group_version; registered = [] }

-- SchemeBuilder behind the package's init
abbrev pub scheme_builder : Builder
scheme_builder = register (unsealer ∷ unsealer_list ∷ []) new_builder

-- Go values of each type, and their kind: the name of the type
abbrev pub Value : ApiType → Type 0
Value unsealer = VaultUnsealer
Value unsealer_list = VaultUnsealerList

abbrev pub kind : ApiType → Text
kind unsealer = codes "VaultUnsealer"
kind unsealer_list = codes "VaultUnsealerList"
