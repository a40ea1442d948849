-- ===== src/Routing/Registry.antt =====
-- brokers/common/registry.py. A gateway stands for itself (`G`); what its `list_capabilities`
-- returns is an argument of the calls that ask for it. A method is one step under the lock, but
-- `refresh_capabilities`, which lets go of the lock while it asks the gateway, is two.
pub mod Consistent
use Prim.Native.String.{String}
use inc_trade.Prelude.{Bool, true, false, Option, none, some, List, [], ◌∷◌, if◌then◌else◌}
use inc_trade.Prelude.Dict.{Dict, keys, lookup, contains, insert, erase}
use inc_trade.Prelude.Result.{Result, ok, err}
use inc_trade.Routing.Models.{BrokerHealthSnapshot, is_usable}

-- The extension bundles and the lock are left out. `supports` is `BrokerCapabilities.supports`.
pub record BrokerRegistry (K F G S : Type 0) : Type 0 where
  pub gateways : Dict K G
  pub capabilities : Dict K (F → Bool)
  pub health : Dict K BrokerHealthSnapshot
  pub stream_summaries : Dict K S

-- `BrokerUnavailableError`, with its reason.
pub record BrokerUnavailable (K : Type 0) : Type 0 where
  pub broker_id : K
  pub reason : String

abbrev pub alive_health : BrokerHealthSnapshot
alive_health = record { alive = true; auth_valid = true; latency_p50_ms = 0; reason = "" }

abbrev pub missing_health : BrokerHealthSnapshot
missing_health = record {
  alive = false;
  auth_valid = true;
  latency_p50_ms = 0;
  reason = "not registered";
}

module _ {K F G S : Type 0} where
  unfoldable pub empty_registry : BrokerRegistry K F G S
  empty_registry = record { gateways = []; capabilities = []; health = []; stream_summaries = [] }

module _ {K F G S : Type 0} (dec : Discrete K) where
  unfoldable pub register : K → G → (F → Bool) → BrokerRegistry K F G S → BrokerRegistry K F G S
  register broker gateway descriptor r = record r {
    gateways = insert dec broker gateway r.gateways;
    capabilities = insert dec broker descriptor r.capabilities;
    health = insert dec broker alive_health r.health;
  }

  unfoldable pub deregister : K → BrokerRegistry K F G S → BrokerRegistry K F G S
  deregister broker r = record {
    gateways = erase dec broker r.gateways;
    capabilities = erase dec broker r.capabilities;
    health = erase dec broker r.health;
    stream_summaries = erase dec broker r.stream_summaries;
  }

  unfoldable pub get_gateway : K → BrokerRegistry K F G S → Result (BrokerUnavailable K) G
  get_gateway broker r = elim (lookup dec broker r.gateways) [
    | none ↦ err (record { broker_id = broker; reason = "not registered" })
    | some gateway ↦ elim (lookup dec broker r.health) [
      | none ↦ ok gateway
      | some h ↦
          if is_usable h then ok gateway else err (record { broker_id = broker; reason = h.reason })
    ]
  ]

  unfoldable pub get_capabilities :
      K → BrokerRegistry K F G S → Result (BrokerUnavailable K) (F → Bool)
  get_capabilities broker r = elim (lookup dec broker r.capabilities) [
    | none ↦ err (record { broker_id = broker; reason = "not registered" })
    | some descriptor ↦ ok descriptor
  ]

  unfoldable pub get_health : K → BrokerRegistry K F G S → BrokerHealthSnapshot
  get_health broker r = elim (lookup dec broker r.health) [ none ↦ missing_health | some h ↦ h ]

  abbrev pub is_registered : K → BrokerRegistry K F G S → Bool
  is_registered broker r = contains dec broker r.gateways

  unfoldable pub update_health :
      K → BrokerHealthSnapshot → BrokerRegistry K F G S → BrokerRegistry K F G S
  update_health broker snapshot r =
      if is_registered broker r
      then record r { health = insert dec broker snapshot r.health }
      else r

  unfoldable pub update_stream_summary : K → S → BrokerRegistry K F G S → BrokerRegistry K F G S
  update_stream_summary broker summary r = record r {
    stream_summaries = insert dec broker summary r.stream_summaries;
  }

  -- The second step of `refresh_capabilities`. The first reads whether there is a gateway.
  unfoldable pub write_capabilities :
      K → (F → Bool) → BrokerRegistry K F G S → BrokerRegistry K F G S
  write_capabilities broker descriptor r = record r {
    capabilities = insert dec broker descriptor r.capabilities;
  }

  -- `refresh_capabilities` with nothing in between its two steps.
  unfoldable pub refresh_capabilities :
      K → (F → Bool) → BrokerRegistry K F G S → BrokerRegistry K F G S
  unfolding write_capabilities
  refresh_capabilities broker descriptor r =
      if is_registered broker r then write_capabilities broker descriptor r else r
