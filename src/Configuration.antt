-- ===== src/Configuration.antt =====
-- The limits of a build: the options of src/port/zephyr/Kconfig and src/port/zephyr/ipc_config.h, the
-- macros of src/port/posix/ipc_config.h and src/port/test/ipc_config.h, and the static assertions of
-- src/ipc_internal.h.
use actor_framework_cxx.Prelude.{
  ℕ, ◌+◌, ◌≤◌, ◌<◌, ◌≡◌, Bool, true, false, ◌&&◌, ◌||◌, not, Option, ltb, leb, if◌then◌else◌,
  Bool-cases, inl, inr, ◌⊎◌, arith,
}
use mathlib.Core.Option.{get_or}
use actor_framework_cxx.State.{Config}
use actor_framework_cxx.ZephyrPort.{ZephyrConfig}

-- The options of Kconfig.
pub record BuildOptions : Type 0 where
  pub diagnostics : Bool
  pub max_registrations : ℕ
  pub max_subscriptions : ℕ
  pub ask : Bool
  pub max_inflight_asks : ℕ
  pub max_pending_ask_timeouts : ℕ
  pub send_after : Bool

abbrev pub default_options : BuildOptions
default_options = record {
  diagnostics = true;
  max_registrations = 32;
  max_subscriptions = 32;
  ask = true;
  max_inflight_asks = 16;
  max_pending_ask_timeouts = 4;
  send_after = true;
}

abbrev within : (low high n : ℕ) → Bool
within low high n = leb low n && leb n high

-- The ranges of Kconfig, where those of asks are tested with asks only.
unfoldable pub in_range : BuildOptions → Bool
in_range o =
    within 1 1024 o.max_registrations
    && within 0 1024 o.max_subscriptions
    && (not o.ask
        || (within 1 1024 o.max_inflight_asks && within 1 1024 o.max_pending_ask_timeouts))

-- The macros of ipc_config.h on Zephyr.
abbrev pub zephyr_limits : (asserts : Bool) → BuildOptions → Config
zephyr_limits asserts o = record {
  max_registrations = o.max_registrations;
  max_subscriptions = o.max_subscriptions;
  max_inflight = if o.ask then o.max_inflight_asks else 1;
  asserts = asserts;
}

abbrev pub zephyr_features : BuildOptions → ZephyrConfig
zephyr_features o = record { send_after = o.send_after; ask = o.ask }

-- The BUILD_ASSERTs of ipc_config.h on Zephyr.
unfoldable pub build_asserts : BuildOptions → Bool
build_asserts o =
    ltb 0 o.max_registrations
    && leb 0 o.max_subscriptions
    && (not o.ask
        || (ltb 0 o.max_inflight_asks
            && ltb 0 o.max_pending_ask_timeouts
            && leb o.max_pending_ask_timeouts o.max_inflight_asks))

-- The macros of ipc_config.h on POSIX and on the test port, with those that the build defines.
abbrev pub host_limits :
    (asserts : Bool) → (max_registrations max_subscriptions max_inflight : Option ℕ) → Config
host_limits asserts r s q = record {
  max_registrations = get_or r 32;
  max_subscriptions = get_or s 32;
  max_inflight = get_or q 16;
  asserts = asserts;
}

-- The static assertions of ipc_internal.h.
unfoldable pub internal_asserts : (ask : Bool) → Config → Bool
internal_asserts ask cfg =
    ltb 0 cfg.max_registrations
    && leb 0 cfg.max_subscriptions
    && (not ask || ltb 0 cfg.max_inflight)

-- A Zephyr build whose options are in their ranges and pass the assertions of its port passes those of
-- the core, has room for an ask, has so few slots for asks that a search for an id ends, and has no more
-- timeouts than asks, with asks.
pub zephyr_limits_lem :
    (asserts : Bool) (o : BuildOptions)
    → in_range o ≡ true
    → build_asserts o ≡ true
    → let cfg = zephyr_limits asserts o in
      (internal_asserts o.ask cfg ≡ true)
      × (0 < cfg.max_inflight)
      × (cfg.max_inflight + 2 ≤ 4294967296)
      × (cfg.max_registrations + cfg.max_subscriptions ≤ 2048)
      × ((o.ask ≡ false) ⊎ (o.max_pending_ask_timeouts ≤ cfg.max_inflight))
unfolding in_range build_asserts internal_asserts
zephyr_limits_lem asserts o r b = elim (Bool-cases o.ask) [
  | inl y ↦ (ground arith, ground arith, ground arith, ground arith, inr (ground arith))
  | inr n ↦ (ground arith, ground arith, ground arith, ground arith, inl n)
]
