-- ===== src/Client/Tests/Interleaving.antt =====
-- The theorem about interleaved sends, at a send that begins while another one waits for its answer.
use clickman.Base.{◌≡◌, refl, true, [], ◌∷◌}
use clickman.Base.Text.{text}
use clickman.Client.Clock.{unix_millis, millis, rfc3339_millis}
use clickman.Base.Int.{pos, saturating_sub}
use clickman.Client.Queue.{Batch, forced, insert, payload, take_batch}
use clickman.Client.Store.{Database}
use clickman.Client.Sender.{Attempt}
use clickman.Client.Sender.Threads.{
  Posted, System, begin, conclude, Reach, here, next, begins, concludes, writes,
}
use clickman.Client.Sender.Threads.Serial.{IsSerial}
use clickman.Client.Sender.Threads.Reached.{Reach-IsSerial}
use clickman.Client.Tests.{config, platform, float}
use clickman.Client.Tests.Sending.{attempt_with, world}

abbrev began : System float
began =
    begin platform float config forced (attempt_with 202) (record { world = world; posted = [] })

abbrev batch : Batch
batch = record { last_seq = 3; bodies = text "{}" ∷ text "{}" ∷ text "{}" ∷ [] }

abbrev call : Posted float
call = record {
  batch = batch;
  body = payload batch (rfc3339_millis (platform.civil (pos 5_000_000_000)));
  attempt = attempt_with 202;
}

-- A second send meanwhile, then another event, then the answer.
abbrev second : System float
second = begin platform float config forced (attempt_with 503) began

abbrev tracked : System float
tracked = record second {
  world = record second.world { database = insert (pos 1) (text "{}") second.world.database };
}

abbrev ended : System float
ended = record { world = conclude platform float config true call tracked.world; posted = [] }

only_one : tracked.posted ≡ call ∷ []
unfolding begin take_batch saturating_sub unix_millis millis
only_one = refl

-- The sends are those of that moment, and the writes insert an event.
abbrev Now : Attempt float → Type 0
Now attempt = attempt.now ≡ pos 5_000_000_000

abbrev Inserts : (Database → Database) → Type 0
Inserts change = change ≡ insert (pos 1) (text "{}")

ended-Reach : Reach platform float config Now Inserts (record { world = world; posted = [] }) ended
ended-Reach =
    next
      (next
        (next (next here (begins forced (attempt_with 202) refl))
          (begins forced (attempt_with 503) refl))
        (writes (insert (pos 1) (text "{}")) refl))
      (concludes true [] [] call only_one)

Reach-IsSerial_example : IsSerial platform float config Now Inserts world ended
Reach-IsSerial_example =
    Reach-IsSerial platform float config Now Inserts world ended refl ended-Reach
