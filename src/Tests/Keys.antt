-- ===== src/Tests/Keys.antt =====
-- Keys: both formats, and the loader on the secret of the small cluster.
use vault_unsealer.Prelude.{pos, ◌≡◌, ◌≢◌, refl, List, [], ◌∷◌, arith}
use vault_unsealer.Prelude.{All}
use vault_unsealer.Text.{Text, codes, text_eq}
use vault_unsealer.Text.Lines.{join_lines, split_lines}
use vault_unsealer.Text.Space.{trim_space, space_prefix, space_suffix}
use vault_unsealer.Result.{ok}
use vault_unsealer.Cluster.{Env, ◌>>=◌, lookup}
use vault_unsealer.Json.Laws.{IsPlain, json_array}
use vault_unsealer.Secrets.Keys.{is_bracketed, parse_keys}
use vault_unsealer.Secrets.Keys.Arrays.{parse_keys-json_array}
use vault_unsealer.Secrets.Keys.Format.{
  IsLine, IsDelivered, parse_keys-join_lines, parse_keys-IsDelivered,
}
use vault_unsealer.Secrets.Loader.{
  collect, load_keys_from_secret, finish, add_keys, add_key, load_unseal_keys,
}
use vault_unsealer.Secrets.Loader.Guarantees.{AreLoaded, load_unseal_keys-AreLoaded}
use vault_unsealer.Secrets.Loader.Laws.{read_all}
use vault_unsealer.Tests.World.{world, unsealer, key_ref}

abbrev message : Text → Text
message data' = codes "invalid character"

abbrev two_keys : List Text
two_keys = codes "alpha" ∷ codes "beta" ∷ []

alpha-IsLine : IsLine (codes "alpha")
alpha-IsLine = record {
  some_byte = λ e. cc;
  trimmed = record { left = unfold space_prefix in refl; right = unfold space_suffix in refl };
  one_line = grind arith;
}

beta-IsLine : IsLine (codes "beta")
beta-IsLine = record {
  some_byte = λ e. cc;
  trimmed = record { left = unfold space_prefix in refl; right = unfold space_suffix in refl };
  one_line = grind arith;
}

parse_keys-join_lines_example :
    parse_keys message (join_lines (codes "alpha" ∷ codes "beta" ∷ [])) ≡ ok two_keys
parse_keys-join_lines_example =
    parse_keys-join_lines message (codes "alpha") (codes "beta" ∷ [])
      (alpha-IsLine, (beta-IsLine, tt)) (unfold is_bracketed join_lines in refl)

two_keys-IsPlain : All IsPlain two_keys
two_keys-IsPlain = grind arith

parse_keys-json_array_example : parse_keys message (json_array two_keys) ≡ ok two_keys
parse_keys-json_array_example = parse_keys-json_array message two_keys two_keys-IsPlain

parse_keys-IsDelivered_example : (two_keys ≢ []) × All IsDelivered two_keys
unfolding is_bracketed trim_space parse_keys split_lines
parse_keys-IsDelivered_example =
    parse_keys-IsDelivered message (codes " alpha \n\nbeta\n") two_keys refl refl

abbrev cluster : Env
cluster = world unsealer

load_unseal_keys-AreLoaded_example :
    (parts : List (List Text)) × ((read_all cluster (codes "vault") (key_ref ∷ []) []).0 ≡ ok parts)
    × AreLoaded (pos 2) parts two_keys
unfolding load_unseal_keys ◌>>=◌ collect load_keys_from_secret lookup text_eq parse_keys split_lines
    finish add_keys add_key
load_unseal_keys-AreLoaded_example =
    load_unseal_keys-AreLoaded cluster (codes "vault") (key_ref ∷ []) (pos 2) [] two_keys refl
