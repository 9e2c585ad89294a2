-- ===== src/Config/EnvLaws.antt =====
-- What the overrides of the environment make of a configuration.
use Prim.Native.String.{String}
use group_free_collectives.Base.{
  ℕ, ◌≤◌, ◌<◌, ◌≡◌, refl, sym, subst, ◌∙◌, >>=-ok, ok-injective, Bool, true, false, ◌||◌, Option,
  none, some, arith, Outcome, ok, err, value_error, ◌>>=◌,
}
use group_free_collectives.Config.{SymmetricCollectiveConfig, post_init}
use group_free_collectives.Config.Laws.{IsValid, post_init-ok_iff, power_test_of}
use group_free_collectives.Config.Env.{
  EnvOverrides, no_overrides, replace, set_flag, set_some, apply_overrides,
}

-- The configuration that the overrides ask for, field by field.
abbrev or_else {ℓ} : {A : Type ℓ} → Option A → A → A
or_else none a = a
or_else (some b) a = b

abbrev or_some {ℓ} : {A : Type ℓ} → Option A → Option A → Option A
or_some none o = o
or_some (some b) o = some b

abbrev pub overridden : EnvOverrides → SymmetricCollectiveConfig → SymmetricCollectiveConfig
overridden e c = record c {
  enable_debug_checks = e.debug || c.enable_debug_checks;
  use_tma = e.use_tma || c.use_tma;
  use_copy_engine = e.use_copy_engine || c.use_copy_engine;
  copy_sms = or_else e.copy_sms c.copy_sms;
  timeout_ms = or_else e.timeout_ms c.timeout_ms;
  max_pipeline_chunks = or_else e.max_pipeline_chunks c.max_pipeline_chunks;
  pipeline_chunks = or_else e.pipeline_chunks c.pipeline_chunks;
  enable_fused_path = or_else e.enable_fused_path c.enable_fused_path;
  fused_num_channels = or_else e.fused_num_channels c.fused_num_channels;
  fused_chunk_size = or_else e.fused_chunk_size c.fused_chunk_size;
  autotune_config_path = or_some e.autotune_config_path c.autotune_config_path;
}

abbrev Config : Type 0
Config = SymmetricCollectiveConfig

-- If the override succeeds it gives `target`, and a valid configuration stays valid.
abbrev Gives : Config → Config → Outcome Config → Type 0
Gives c target m = (a : Config) → m ≡ ok a → (a ≡ target) × (IsValid c → IsValid a)

replace-Gives : (c d target : Config) → d ≡ target → Gives c target (replace d)
unfolding replace
replace-Gives c d target e a h =
    let (u, checked, same) = >>=-ok (post_init d) (λ _. ok d) h in
    let there : a ≡ d = sym (ok-injective same) in
    (there ∙ e, λ _. subst IsValid (sym there) ((post_init-ok_iff d).0 checked))

keep-Gives : (c target : Config) → c ≡ target → Gives c target (ok c)
keep-Gives c target e a h = (sym (ok-injective h) ∙ e, λ v. subst IsValid (ok-injective h) v)

set_flag-Gives :
    (b : Bool) (f : Config → Config) (c : Config) (target : Bool → Config)
    → f c ≡ target true
    → c ≡ target false
    → Gives c (target b) (set_flag b f c)
set_flag-Gives true f c target changed kept = replace-Gives c (f c) (target true) changed
set_flag-Gives false f c target changed kept = keep-Gives c (target false) kept

set_some-Gives {ℓ} :
    {A : Type ℓ} (o : Option A) (f : A → Config → Config) (c : Config) (target : Option A → Config)
    → ((a : A) → f a c ≡ target (some a))
    → c ≡ target none
    → Gives c (target o) (set_some o f c)
set_some-Gives none f c target changed kept = keep-Gives c (target none) kept
set_some-Gives (some a) f c target changed kept =
    replace-Gives c (f a c) (target (some a)) (changed a)

-- One override, then the rest of them from its target.
then-Gives :
    (c mid target : Config) (m : Outcome Config) (k : Config → Outcome Config)
    → Gives c mid m
    → Gives mid target (k mid)
    → Gives c target (m >>= k)
then-Gives c mid target m k first rest a h =
    let (b, mb, kb) = >>=-ok m k h in
    let (e, vb) = first b mb in
    let (e', va) = rest a (subst (λ d. k d ≡ ok a) e kb) in (e', λ v. va (subst IsValid e (vb v)))

abbrev with_enable_debug_checks : Config → Bool → Config
with_enable_debug_checks c x = record c { enable_debug_checks = x || c.enable_debug_checks }

abbrev with_use_tma : Config → Bool → Config
with_use_tma c x = record c { use_tma = x || c.use_tma }

abbrev with_use_copy_engine : Config → Bool → Config
with_use_copy_engine c x = record c { use_copy_engine = x || c.use_copy_engine }

abbrev with_copy_sms : Config → Option ℕ → Config
with_copy_sms c x = record c { copy_sms = or_else x c.copy_sms }

abbrev with_timeout_ms : Config → Option ℕ → Config
with_timeout_ms c x = record c { timeout_ms = or_else x c.timeout_ms }

abbrev with_max_pipeline_chunks : Config → Option ℕ → Config
with_max_pipeline_chunks c x = record c { max_pipeline_chunks = or_else x c.max_pipeline_chunks }

abbrev with_pipeline_chunks : Config → Option ℕ → Config
with_pipeline_chunks c x = record c { pipeline_chunks = or_else x c.pipeline_chunks }

abbrev with_enable_fused_path : Config → Option Bool → Config
with_enable_fused_path c x = record c { enable_fused_path = or_else x c.enable_fused_path }

abbrev with_fused_num_channels : Config → Option ℕ → Config
with_fused_num_channels c x = record c { fused_num_channels = or_else x c.fused_num_channels }

abbrev with_fused_chunk_size : Config → Option ℕ → Config
with_fused_chunk_size c x = record c { fused_chunk_size = or_else x c.fused_chunk_size }

abbrev with_autotune_config_path : Config → Option String → Config
with_autotune_config_path c x = record c { autotune_config_path = or_some x c.autotune_config_path }

-- Overrides that succeed give the configuration asked for, valid if the first one was.
pub apply_overrides-Gives :
    (e : EnvOverrides) (c : Config) {d : Config}
    → apply_overrides e c ≡ ok d
    → (d ≡ overridden e c) × (IsValid c → IsValid d)
unfolding apply_overrides
apply_overrides-Gives e c {d} h =
    let c1 : Config = with_enable_debug_checks c e.debug in
    let c2 : Config = with_use_tma c1 e.use_tma in
    let c3 : Config = with_use_copy_engine c2 e.use_copy_engine in
    let c4 : Config = with_copy_sms c3 e.copy_sms in
    let c5 : Config = with_timeout_ms c4 e.timeout_ms in
    let c6 : Config = with_max_pipeline_chunks c5 e.max_pipeline_chunks in
    let c7 : Config = with_pipeline_chunks c6 e.pipeline_chunks in
    let c8 : Config = with_enable_fused_path c7 e.enable_fused_path in
    let c9 : Config = with_fused_num_channels c8 e.fused_num_channels in
    let c10 : Config = with_fused_chunk_size c9 e.fused_chunk_size in
    (then-Gives c c1 _ _ _ (set_flag-Gives e.debug _ c (with_enable_debug_checks c) refl refl) (
        then-Gives c1 c2 _ _ _ (set_flag-Gives e.use_tma _ c1 (with_use_tma c1) refl refl) (
          then-Gives c2 c3 _ _ _
            (set_flag-Gives e.use_copy_engine _ c2 (with_use_copy_engine c2) refl refl)
            (then-Gives c3 c4 _ _ _
              (set_some-Gives e.copy_sms _ c3 (with_copy_sms c3) (λ a. refl) refl)
              (then-Gives c4 c5 _ _ _
                (set_some-Gives e.timeout_ms _ c4 (with_timeout_ms c4) (λ a. refl) refl)
                (then-Gives c5 c6 _ _ _
                  (set_some-Gives e.max_pipeline_chunks _ c5 (with_max_pipeline_chunks c5)
                    (λ a. refl) refl)
                  (then-Gives c6 c7 _ _ _
                    (set_some-Gives e.pipeline_chunks _ c6 (with_pipeline_chunks c6) (λ a. refl)
                      refl)
                    (then-Gives c7 c8 _ _ _
                      (set_some-Gives e.enable_fused_path _ c7 (with_enable_fused_path c7)
                        (λ a. refl) refl)
                      (then-Gives c8 c9 _ _ _
                        (set_some-Gives e.fused_num_channels _ c8 (with_fused_num_channels c8)
                          (λ a. refl) refl)
                        (then-Gives c9 c10 _ _ _
                          (set_some-Gives e.fused_chunk_size _ c9 (with_fused_chunk_size c9)
                            (λ a. refl) refl)
                          (set_some-Gives e.autotune_config_path _ c10
                            (with_autotune_config_path c10) (λ a. refl) refl)))))))))))
      d h

module _ (c : Config) (m p : ℕ) where
  abbrev pub pipeline_overrides : EnvOverrides
  pipeline_overrides = record no_overrides {
    pipeline_chunks = some p;
    max_pipeline_chunks = some m;
  }

  -- Lowering the ceiling below the chunk count of a valid configuration is refused, also where the
  -- same environment lowers the chunk count with it and what it asks for is valid.
  pub lower_both_refused :
      IsValid c
      → m < c.pipeline_chunks
      → 1 ≤ p
      → p ≤ m
      → (apply_overrides pipeline_overrides c ≡ err value_error)
        × IsValid (overridden pipeline_overrides c)
  unfolding apply_overrides replace post_init
  lower_both_refused v below one fits = (
    ground (arith, power_test_of c v),
    record {
      group_range = v.group_range;
      bytes_pos = v.bytes_pos;
      bytes_aligned = v.bytes_aligned;
      alignment_ge = v.alignment_ge;
      alignment_power = v.alignment_power;
      copy_sms_pos = v.copy_sms_pos;
      chunks_range = (one, fits);
      min_chunk_pos = v.min_chunk_pos;
      chunk_pos = v.chunk_pos;
      chunk_aligned = v.chunk_aligned;
      channels_pos = v.channels_pos;
    },
  )
