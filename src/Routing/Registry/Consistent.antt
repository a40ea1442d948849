-- ===== src/Routing/Registry/Consistent.antt =====
-- The registry keeps its dictionaries in step.
use inc_trade.Prelude.{
  ◌≡◌, refl, Bool, true, false, List, [], ◌∷◌, IsDistinct, arith, if◌then◌else◌,
}
use inc_trade.Prelude.Dict.{
  keys, contains, erase, insert-IsDistinct, erase-IsDistinct, contains-insert, contains-erase,
  lookup-insert_self, lookup-erase_self,
}
use inc_trade.Prelude.Result.{ok}
use inc_trade.Routing.Models.{BrokerHealthSnapshot}
use inc_trade.Routing.Registry.{
  alive_health, BrokerRegistry, empty_registry, register, deregister, get_capabilities,
  is_registered, update_health, update_stream_summary, write_capabilities, refresh_capabilities,
}

-- The changes of a registry. A refresh is one step here: nothing comes between its halves.
pub data Change (K F G S : Type 0) : Type 0 where
  registers : K → G → (F → Bool) → Change K F G S
  deregisters : K → Change K F G S
  reports_health : K → BrokerHealthSnapshot → Change K F G S
  reports_stream : K → S → Change K F G S
  refreshes : K → (F → Bool) → Change K F G S

module _ {K F G S : Type 0} (dec : Discrete K) where
  -- A registered broker has its descriptor and its health, and nobody else has.
  pub record IsConsistent (r : BrokerRegistry K F G S) : Type 0 where
    pub gateways_distinct : IsDistinct dec (keys r.gateways)
    pub capabilities_distinct : IsDistinct dec (keys r.capabilities)
    pub health_distinct : IsDistinct dec (keys r.health)
    pub described : (k : K) → contains dec k r.capabilities ≡ contains dec k r.gateways
    pub watched : (k : K) → contains dec k r.health ≡ contains dec k r.gateways

  unfoldable pub apply : Change K F G S → BrokerRegistry K F G S → BrokerRegistry K F G S
  apply (registers k gateway descriptor) r = register dec k gateway descriptor r
  apply (deregisters k) r = deregister dec k r
  apply (reports_health k h) r = update_health dec k h r
  apply (reports_stream k s) r = update_stream_summary dec k s r
  apply (refreshes k descriptor) r = refresh_capabilities dec k descriptor r

  unfoldable pub apply_all : List (Change K F G S) → BrokerRegistry K F G S → BrokerRegistry K F G S
  apply_all [] r = r
  apply_all (x ∷ xs) r = apply_all xs (apply x r)

  if-IsConsistent :
      (b : Bool) {x y : BrokerRegistry K F G S}
      → (b ≡ true → IsConsistent x)
      → IsConsistent y
      → IsConsistent (if b then x else y)
  if-IsConsistent true h k = h refl
  if-IsConsistent false h k = k

  apply-IsConsistent :
      (x : Change K F G S) (r : BrokerRegistry K F G S) → IsConsistent r → IsConsistent (apply x r)
  unfolding apply register deregister update_health update_stream_summary refresh_capabilities
  apply-IsConsistent (registers k gateway descriptor) r h = record {
    gateways_distinct = insert-IsDistinct dec k gateway r.gateways h.gateways_distinct;
    capabilities_distinct =
        insert-IsDistinct dec k descriptor r.capabilities h.capabilities_distinct;
    health_distinct = insert-IsDistinct dec k alive_health r.health h.health_distinct;
    described = λ j. ground (
      arith,
      h.described j,
      contains-insert dec j k gateway r.gateways,
      contains-insert dec j k descriptor r.capabilities,
    );
    watched = λ j. ground (
      arith,
      h.watched j,
      contains-insert dec j k gateway r.gateways,
      contains-insert dec j k alive_health r.health,
    );
  }
  apply-IsConsistent (deregisters k) r h = record {
    gateways_distinct = erase-IsDistinct dec k r.gateways h.gateways_distinct;
    capabilities_distinct = erase-IsDistinct dec k r.capabilities h.capabilities_distinct;
    health_distinct = erase-IsDistinct dec k r.health h.health_distinct;
    described = λ j. ground (
      arith,
      h.described j,
      contains-erase dec j k r.gateways h.gateways_distinct,
      contains-erase dec j k r.capabilities h.capabilities_distinct,
    );
    watched = λ j. ground (
      arith,
      h.watched j,
      contains-erase dec j k r.gateways h.gateways_distinct,
      contains-erase dec j k r.health h.health_distinct,
    );
  }
  apply-IsConsistent (reports_health k snapshot) r h =
      if-IsConsistent (is_registered dec k r)
        (λ known. record {
          gateways_distinct = h.gateways_distinct;
          capabilities_distinct = h.capabilities_distinct;
          health_distinct = insert-IsDistinct dec k snapshot r.health h.health_distinct;
          described = h.described;
          watched =
              λ j. ground (arith, known, h.watched j, contains-insert dec j k snapshot r.health);
        })
        h
  apply-IsConsistent (reports_stream k s) r h = record {
    gateways_distinct = h.gateways_distinct;
    capabilities_distinct = h.capabilities_distinct;
    health_distinct = h.health_distinct;
    described = h.described;
    watched = h.watched;
  }
  apply-IsConsistent (refreshes k descriptor) r h =
      if-IsConsistent (is_registered dec k r)
        (λ known. record {
          gateways_distinct = h.gateways_distinct;
          capabilities_distinct =
              insert-IsDistinct dec k descriptor r.capabilities h.capabilities_distinct;
          health_distinct = h.health_distinct;
          described = λ j.
              ground
                (arith, known, h.described j, contains-insert dec j k descriptor r.capabilities);
          watched = h.watched;
        })
        h

  apply_all-IsConsistent_from :
      (xs : List (Change K F G S)) (r : BrokerRegistry K F G S)
      → IsConsistent r
      → IsConsistent (apply_all xs r)
  unfolding apply_all
  apply_all-IsConsistent_from [] r h = h
  apply_all-IsConsistent_from (x ∷ xs) r h =
      apply_all-IsConsistent_from xs (apply x r) (apply-IsConsistent x r h)

  -- After any registrations, removals, reports and undisturbed refreshes of an empty registry,
  -- exactly the registered brokers have a descriptor and a health.
  pub apply_all-IsConsistent :
      (xs : List (Change K F G S)) → IsConsistent (apply_all xs empty_registry)
  unfolding empty_registry
  apply_all-IsConsistent xs = apply_all-IsConsistent_from xs empty_registry (record {
    gateways_distinct = tt;
    capabilities_distinct = tt;
    health_distinct = tt;
    described = λ k. refl;
    watched = λ k. refl;
  })

  -- A refresh that found its broker registered, and lost it to a removal before it writes, leaves a
  -- descriptor for a broker that is not registered.
  pub write_capabilities-late :
      (k : K) (descriptor : F → Bool) (r : BrokerRegistry K F G S)
      → IsConsistent r
      → let after = write_capabilities dec k descriptor (deregister dec k r) in
        (get_capabilities dec k after ≡ ok descriptor) × (is_registered dec k after ≡ false)
  unfolding write_capabilities deregister get_capabilities
  write_capabilities-late k descriptor r h = ground (
    arith,
    lookup-insert_self dec k descriptor (erase dec k r.capabilities),
    lookup-erase_self dec k r.gateways h.gateways_distinct,
  )
