-- ===== src/Examples/Configs.antt =====
-- The configuration and its overrides.
use group_free_collectives.Base.{◌≡◌, refl, ◌↔◌, arith, some, ok, err, value_error}
use group_free_collectives.Config.{SymmetricCollectiveConfig, default_config, post_init}
use group_free_collectives.Config.Laws.{IsValid, post_init-ok_iff}
use group_free_collectives.Config.Env.{EnvOverrides, no_overrides, replace, apply_overrides}
use group_free_collectives.Config.EnvLaws.{
  overridden, apply_overrides-Gives, pipeline_overrides, lower_both_refused,
}

post_init-ok_iff_example : (post_init default_config ≡ ok tt) ↔ IsValid default_config
post_init-ok_iff_example = post_init-ok_iff default_config

abbrev more_sms : EnvOverrides
more_sms = record no_overrides { copy_sms = some 32 }

abbrev wider : SymmetricCollectiveConfig
wider = record default_config { copy_sms = 32 }

wider_accepted : apply_overrides more_sms default_config ≡ ok wider
unfolding apply_overrides replace post_init
wider_accepted = refl

apply_overrides-Gives_example :
    (wider ≡ overridden more_sms default_config) × (IsValid default_config → IsValid wider)
apply_overrides-Gives_example = apply_overrides-Gives more_sms default_config wider_accepted

abbrev four_chunks : SymmetricCollectiveConfig
four_chunks = record default_config { pipeline_chunks = 4 }

four_chunks-IsValid : IsValid four_chunks
four_chunks-IsValid = (post_init-ok_iff four_chunks).0 (unfold post_init in refl)

lower_both_refused_example :
    (apply_overrides (pipeline_overrides four_chunks 2 2) four_chunks ≡ err value_error)
    × IsValid (overridden (pipeline_overrides four_chunks 2 2) four_chunks)
lower_both_refused_example =
    lower_both_refused four_chunks 2 2 four_chunks-IsValid (omega arith) (omega arith) (omega arith)
