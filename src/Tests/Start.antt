-- ===== src/Tests/Start.antt =====
-- Runs of the entry point: with both certificate directories, with a step that fails, and with an
-- `append` that leaves room.
use vault_unsealer.Prelude.{ℕ, suc, ◌≡◌, refl, Bool, true, false, List, [], ◌∷◌, some, All, length}
use vault_unsealer.Text.{codes}
use vault_unsealer.Entry.Slices.{no_arrays, contents, append}
use vault_unsealer.Entry.Boot.{
  certificates_of, disable_http2, Step, complete_webhook, exited, stop, attempt, ◌>>=◌,
}
use vault_unsealer.Entry.Main.{Flags, default_flags, metrics_watcher, main}
use vault_unsealer.Entry.Main.Layout.{for_webhook, for_metrics}
use vault_unsealer.Entry.Main.Order.{started}
use vault_unsealer.Entry.Main.Ended.{IsEnded, AreStarts, needed, main-IsEnded}
use vault_unsealer.Entry.Main.Servers.{IsServed, main-AreServed}

abbrev certified : Flags
certified = record default_flags {
  webhook_cert_path = codes "/webhook";
  metrics_cert_path = codes "/metrics";
}

abbrev tight : ℕ → ℕ
tight n = n

abbrev none_fails : List Step → Step → Bool
none_fails before step = false

-- the webhook cannot be set up
abbrev webhook_fails : List Step → Step → Bool
webhook_fails before (complete_webhook kind) = true
webhook_fails before step = false

main-IsEnded_example :
    (let p = main tight webhook_fails certified (started no_arrays) in
      IsEnded webhook_fails p.0 p.1.steps × AreStarts (needed certified) p.1.steps)
main-IsEnded_example = main-IsEnded tight webhook_fails certified no_arrays

main-AreServed_example :
    All
      (IsServed certified (main tight none_fails certified (started no_arrays)).1.arrays)
      (main tight none_fails certified (started no_arrays)).1.steps
main-AreServed_example = main-AreServed tight refl none_fails certified

-- the exit status when the webhook cannot be set up, and the thirteen steps when nothing fails
webhook_exit : (main tight webhook_fails certified (started no_arrays)).0 ≡ stop (exited 1)
unfolding main append attempt ◌>>=◌
webhook_exit = refl

all_steps : length (main tight none_fails certified (started no_arrays)).1.steps ≡ 13
unfolding main append attempt ◌>>=◌
all_steps = refl

-- With room for a second element, the two slices share it, and the webhook server is left with the
-- certificates of the metrics server.
shared_array :
    contents (for_metrics suc certified no_arrays).1 (for_webhook suc certified no_arrays).0
    ≡ some disable_http2 ∷ some (certificates_of (metrics_watcher certified)) ∷ []
unfolding append
shared_array = refl
