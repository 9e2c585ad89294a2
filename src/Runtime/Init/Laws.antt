-- ===== src/Runtime/Init/Laws.antt =====
-- What a constructed runtime is provisioned for.
use group_free_collectives.Base.{
  tma_unsupported, some-injective, check-true, ℕ, ◌≤◌, ◌<◌, ◌≡◌, ◌≢◌, refl, subst, ◌∙◌, arith, Bool,
  true, false, not, ◌&&◌, Option, none, some, List, ok, err, value_error, check, require, >>=-ok,
  ok-injective, leb, leb→le, ◌==◌, if◌then◌else◌,
}
use group_free_collectives.Base.Membership.{Elem}
use group_free_collectives.Config.{SymmetricCollectiveConfig}
use group_free_collectives.Config.Env.{EnvOverrides, apply_overrides}
use group_free_collectives.Config.EnvLaws.{apply_overrides-Gives}
use group_free_collectives.Config.Laws.{IsValid}
use group_free_collectives.Autotune.{Rule, from_json, max_fused_num_channels, is_fused, get_knob}
use group_free_collectives.Autotune.Laws.{max_fused_num_channels-bounds}
use group_free_collectives.Runtime.State.{Setup}
use group_free_collectives.Runtime.Init.{
  World, load_autotune, launch_capacity, broadcast_session_nonce, check_paths, construct,
}
use group_free_collectives.Runtime.Collectives.Routes.{IsSound}

-- Every fused rule of the table fits the channels that were provisioned.
abbrev pub Provisioned : Setup → Type 0
Provisioned rt =
    (rules : List Rule)
    → rt.autotune ≡ some rules
    → (r : Rule) → Elem r rules
    → is_fused r.path ≡ true
    → get_knob r.knobs.fused_num_channels 0 ≤ rt.config.fused_num_channels

load_autotune-bounds :
    (w : World) (c : SymmetricCollectiveConfig) {t : Option (List Rule)}
    → load_autotune w c ≡ ok t
    → (rules : List Rule) → t ≡ some rules
    → max_fused_num_channels rules ≤ c.fused_num_channels
unfolding load_autotune
load_autotune-bounds w c {t} h rules e = go c.autotune_config_path h
  where
    go :
        (p : Option _)
        → load_autotune w (record c { autotune_config_path = p }) ≡ ok t
        → max_fused_num_channels rules ≤ c.fused_num_channels
    go none h = absurd (cc)
    go (some path) h =
        let (kept, e1, h1) = >>=-ok (from_json (w.load_table path).0 (w.load_table path).1) _ h in
        let (u, e2, h2) =
          >>=-ok (check (leb (max_fused_num_channels kept) c.fused_num_channels) value_error) _
            h1 in
        subst (λ rs. max_fused_num_channels rs ≤ c.fused_num_channels)
          (some-injective (ok-injective h2 ∙ e)) (leb→le _ _ (check-true _ _ e2))

probed :
    (w : World) (c : SymmetricCollectiveConfig) {b : Bool}
    → (if c.use_tma then (if w.probe then ok true else err tma_unsupported) else ok false) ≡ ok b
    → b ≡ true
    → w.probe ≡ true
probed w c {b} h e = go c.use_tma w.probe h
  where
    go :
        (t p : Bool)
        → (if t then (if p then ok true else err tma_unsupported) else ok false) ≡ ok b
        → p ≡ true
    go true true h = refl
    go true false h = absurd (cc)
    go false p h = absurd (cc)

check_paths_sound :
    (w : World) (c : SymmetricCollectiveConfig) {b : Bool}
    → check_paths w c ≡ ok b
    → (not (c.use_tma && c.use_copy_engine) ≡ true) × (b ≡ true → w.probe ≡ true)
unfolding check_paths
check_paths_sound w c {b} h =
    let (u, e, h1) = >>=-ok (check (not (c.use_tma && c.use_copy_engine)) value_error) _ h in
    (check-true _ _ e, probed w c h1)

nonzero : (n : ℕ) → require (not (n == 0)) ≡ ok tt → n ≢ 0
nonzero n h z = ground arith

-- What the constructor establishes of the runtime that it returns.
pub record IsConstructed (w : World) (rt : Setup) : Type 0 where
  pub sound : IsSound rt
  pub provisioned : Provisioned rt
  pub nonce : rt.session_nonce ≢ 0
  pub one_path : not (rt.config.use_tma && rt.config.use_copy_engine) ≡ true
  pub tma_probed : rt.tma_enabled ≡ true → w.probe ≡ true

-- A runtime that was constructed from an accepted configuration, on a device with a multiprocessor,
-- has a valid configuration and programs to copy with, channels for every fused rule of its table, a
-- nonce that is not 0, at most one of the two exclusive paths, and TMA only where its probe passed.
pub construct-IsConstructed :
    (w : World) (env : EnvOverrides) (given : SymmetricCollectiveConfig) {rt : Setup}
    → IsValid given
    → 0 < w.num_sms
    → construct w env given ≡ ok rt
    → IsConstructed w rt
unfolding construct
construct-IsConstructed w env given {rt} valid sms h =
    let (c, e1, h1) = >>=-ok (apply_overrides env given) _ h in
    let (u2, e2, h2) = >>=-ok (check w.device_is_cuda value_error) _ h1 in
    let (u3, e3, h3) = >>=-ok (require w.is_initialized) _ h2 in
    let (t, e4, h4) = >>=-ok (load_autotune w c) _ h3 in
    let (u5, e5, h5) =
      >>=-ok (if c.enable_fused_path then launch_capacity w.num_sms c.fused_num_channels else ok tt)
        _ h4 in
    let (n, e6, h6) = >>=-ok (broadcast_session_nonce w c) _ h5 in
    let (u7, e7, h7) = >>=-ok (require (not (n == 0))) _ h6 in
    let (b, e8, h8) = >>=-ok (check_paths w c) _ h7 in
    let v : IsValid c = (apply_overrides-Gives env given e1).1 valid in
    let (one, probe) = check_paths_sound w c e8 in
    subst (IsConstructed w) (ok-injective h8) (record {
      sound = record { config_valid = v; copy_sms_pos = omega (arith, v.copy_sms_pos) };
      provisioned = λ rules e r m f.
          omega
            (arith, max_fused_num_channels-bounds rules r m f, load_autotune-bounds w c e4 rules e);
      nonce = nonzero n e7;
      one_path = one;
      tma_probed = probe;
    })
