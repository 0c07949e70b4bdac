-- ===== src/Startup/Waiting.antt =====
-- The wait of `main` of source/main.cpp for the task `mainLoader`, which runs in the dispatcher's
-- thread and notifies a condition variable without a lock. The wait has no condition, and a wake-up
-- without a notification does not happen here.
use juggernaut_server.Base.{◌≡◌, refl, ap}

pub data MainPlace : Type 0 where
  starting waiting woken : MainPlace

pub data LoaderPlace : Type 0 where
  loading finished : LoaderPlace

pub record StartWorld : Type 0 where
  pub main : MainPlace
  pub loader : LoaderPlace

-- `g_loaderSignal.wait(g_loaderUniqueLock)`.
unfoldable pub wait_loader : MainPlace → MainPlace
wait_loader starting = waiting
wait_loader place = place

-- `g_loaderSignal.notify_all()`.
unfoldable pub notify_main : MainPlace → MainPlace
notify_main waiting = woken
notify_main place = place

pub data StartStep (w : StartWorld) : StartWorld → Type 0 where
  waits : StartStep w (record w { main = wait_loader w.main })
  finishes :
      w.loader ≡ loading → StartStep w (record { main = notify_main w.main; loader = finished })

pub data StartReach (w : StartWorld) : StartWorld → Type 0 where
  here : StartReach w w
  step : {u v : StartWorld} → StartReach w u → StartStep u v → StartReach w v

abbrev pub beginning : StartWorld
beginning = record { main = starting; loader = loading }

abbrev pub stuck : StartWorld
stuck = record { main = waiting; loader = finished }

stuck-reached : StartReach beginning stuck
unfolding wait_loader notify_main
stuck-reached =
    step {u = record { main = starting; loader = finished }} (step here (finishes refl)) waits

still_stuck : (u v : StartWorld) → u ≡ stuck → StartStep u v → v ≡ stuck
unfolding wait_loader
still_stuck u v e waits = ap (λ (w : StartWorld). record w { main = wait_loader w.main }) e
still_stuck u v e (finishes loads) = absurd (cc)

-- The loader can notify before `main` waits, and then no step leads `main` out of its wait.
stuck-stays : (v : StartWorld) → StartReach stuck v → (v ≡ stuck) × StartReach beginning stuck
stuck-stays v here = (refl, stuck-reached)
stuck-stays v (step {u} r st) = (still_stuck u v (stuck-stays u r).0 st, stuck-reached)
