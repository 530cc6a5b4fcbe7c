-- ===== src/Admission/Leader.antt =====
-- sysbox-admission/admission/leader.go: the election of the replica that renews the certificates.
-- client-go's elector is a parameter.
use sysbox.Prelude.{ℕ, ◌*◌, Bool, true, Option, none, some, Result, ok, err, wrap}
use sysbox.Go.Strings.{Text}
use sysbox.Action.{Action}
use sysbox.Admission.Certs.{second}
use sysbox.Admission.Resources.{LifecycleConfig}

pub record LeaderElectionConfig : Type 0 where
  pub lease_duration : ℕ
  pub renew_deadline : ℕ
  pub retry_period : ℕ

unfoldable pub default_leader_election_config : LeaderElectionConfig
default_leader_election_config = record {
  lease_duration = 15 * second;
  renew_deadline = 10 * second;
  retry_period = 2 * second;
}

-- `resourcelock.LeaseLock`, without its client.
pub record LeaseLock : Type 0 where
  pub namespace : Text
  pub name : Text
  pub identity : Text

unfoldable pub new_lease_lock : LifecycleConfig → Text → LeaseLock
new_lease_lock config identity = record {
  namespace = config.namespace;
  name = config.lease_name;
  identity = identity;
}

-- `leaderelection.LeaderCallbacks`: a callback changes the state `W` of the process, and one that is
-- nil is `none`.
pub record LeaderCallbacks (W : Type 0) : Type 0 where
  pub on_started_leading : W → W
  pub on_stopped_leading : Option (W → W)

-- `leaderelection.LeaderElectionConfig`.
pub record ElectorConfig (W : Type 0) : Type 0 where
  pub lock : LeaseLock
  pub timing : LeaderElectionConfig
  pub callbacks : LeaderCallbacks W
  pub release_on_cancel : Bool
  pub name : Text

module _ {W : Type 0} where
  with_stop : LeaderCallbacks W → LeaderCallbacks W
  with_stop callbacks = elim callbacks.on_stopped_leading [
    | none ↦ record callbacks { on_stopped_leading = some (λ w. w) }
    | some stop ↦ callbacks
  ]

  -- `new_leader_elector` gives what the elector's `Run` does to the process up to the end of its
  -- context, and `describe` is the lock's method of that name.
  unfoldable pub run_leader_election :
      (ElectorConfig W → Result (W → W))
      → (LeaseLock → Text)
      → LeaseLock
      → LeaderElectionConfig
      → LeaderCallbacks W
      → Action W (Unit {0})
  unfolding with_stop
  run_leader_election new_leader_elector describe lock config callbacks w =
      elim (new_leader_elector (record {
        lock = lock;
        timing = config;
        callbacks = with_stop callbacks;
        release_on_cancel = true;
        name = describe lock;
      })) [ err e ↦ (err (wrap "create leader elector" e), w) | ok run ↦ (ok tt, run w) ]
