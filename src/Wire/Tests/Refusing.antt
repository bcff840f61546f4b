-- ===== src/Wire/Tests/Refusing.antt =====
-- The theorem about a payload that is not read, at a queue of two events.
use clickman.Wire.Tests.Removing.{both}
use clickman.Base.{length, ◌==◌, if◌then◌else◌}
use clickman.Base.Text.{Text, text}
use clickman.Json.{obj}
use clickman.Client.Error.{ok}
use clickman.Client.Queue.{payload}
use clickman.Client.Sender.{Attempt}
use clickman.Client.Tests.{float}
use clickman.Client.Tests.Sending.{attempt_with}
use clickman.Protocol.Outcome
use clickman.Protocol.Batch.{Externals}
use clickman.Protocol.Tests.{externals, item}
use clickman.Ingest.App.{batch}
use clickman.Ingest.Tests.{settings, state, moment}
use clickman.Wire.Carriage.{replied}
use clickman.Wire.Tests.Delivering.{gunzip, arrived, sent_at}

-- The body of an event is read, and a payload is too deep.
abbrev shallow : Externals
shallow = record externals {
  from_slice = λ bytes.
      if length bytes == 2 then Outcome.ok (obj item) else Outcome.err (text "recursion limit");
}

abbrev answering : Attempt float
answering = record (attempt_with 202) {
  reply = λ sent. replied (batch shallow gunzip (λ s. s) settings (arrived sent) moment state).0;
}

abbrev wire : Text
wire = payload both sent_at
