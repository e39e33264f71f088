-- ===== src/Tests/Concurrent.antt =====
-- Tasks of the sample at the same time.
use mathlib.Core.List.Memᴰ
use cryptovira.Prelude.{ℕ, ◌≡◌, refl, Bool, List, [], ◌∷◌, map, All, some}
use cryptovira.Orm.{Stored}
use cryptovira.Signals.Models.{NotificationDelivery, new_delivery, sent, failed}
use cryptovira.Signals.Channels.{Post, accepted}
use cryptovira.World.{World}
use cryptovira.System.Invariant.{Sound}
use cryptovira.Concurrent.{Pool, interleave, HasEnded, WhenDone}
use cryptovira.Concurrent.Growth.{Grows}
use cryptovira.Concurrent.Programs.{Program}
use cryptovira.Concurrent.Tasks.{Task, started}
use cryptovira.Concurrent.Done.{Done}
use cryptovira.Concurrent.Sound.{Visited, interleave-Sound}
use cryptovira.Concurrent.Race.{contest, Left, last_write_wins}
use cryptovira.Tests.Sample.{platform, world, signalled}
use cryptovira.Tests.System.{world-Sound}

abbrev answers : Post
answers url body = accepted

-- the evaluation delivered twice, the dispatch of its signal, and a delivery
abbrev tasks : List (Task platform)
tasks = Task.assess 1 ∷ Task.assess 1 ∷ Task.dispatch 1 ∷ Task.deliver (some "t") answers 0 1 ∷ []

-- The two evaluations take turns, and then the others.
abbrev schedule : List ℕ
schedule =
    0 ∷ 1 ∷ 0 ∷ 1 ∷ 0 ∷ 1 ∷ 0 ∷ 1 ∷ 0 ∷ 1 ∷ 0 ∷ 1 ∷ 0 ∷ 1 ∷ 0 ∷ 1 ∷ 0 ∷ 1 ∷ 1 ∷ 2 ∷ 2 ∷ 2 ∷ 2 ∷ 2
    ∷ 2 ∷ 3 ∷ 2 ∷ 3 ∷ 2 ∷ 3 ∷ 3 ∷ 3 ∷ 3 ∷ 3 ∷ 3 ∷ 3 ∷ 3 ∷ 3 ∷ []

abbrev at_last : Pool (Task platform) (World platform) (Unit {0})
at_last = interleave schedule (started platform tasks world)

interleave-Sound_example :
    Sound platform at_last.state
    × Grows platform world at_last.state
    × (map (λ (t : Task platform × Program platform). t.0) at_last.threads ≡ tasks)
    × All
        (WhenDone (λ t. Done platform (Visited platform tasks schedule world) t at_last.state))
        at_last.threads
interleave-Sound_example = interleave-Sound platform tasks schedule world world-Sound

abbrev first_delivery : Stored NotificationDelivery
first_delivery = record { id = 1; row = new_delivery 1 1 }

abbrev overlapping : Pool Bool (World platform) (Unit {0})
overlapping = contest platform 0 5 first_delivery "503" signalled

last_write_wins_example :
    (Left platform first_delivery failed (interleave (0 ∷ 1 ∷ []) overlapping).state
      × All HasEnded (interleave (0 ∷ 1 ∷ []) overlapping).threads)
    × (Left platform first_delivery sent (interleave (1 ∷ 0 ∷ []) overlapping).state
        × All HasEnded (interleave (1 ∷ 0 ∷ []) overlapping).threads)
last_write_wins_example =
    last_write_wins platform 0 5 first_delivery "503" signalled refl (Memᴰ.head refl)
