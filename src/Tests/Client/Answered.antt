-- ===== src/Tests/Client/Answered.antt =====
-- A run of a request that is answered while it waits.
use oxicast.Common.{ℕ, refl, arith, true, [], ◌∷◌, inl}
use oxicast.Message.{CastMessage}
use oxicast.Tracker.{received}
use oxicast.Serde.Instance.{Json}
use oxicast.Channel.Receiver
use oxicast.Router.Answered.{IsTold}
use oxicast.Router.Traffic.{reads}
use oxicast.Client.Request.{Reply, request}
use oxicast.Client.Laws.Answered.{request-IsTold}
use oxicast.Tests.Base.{json, to_f32, app_client, media_msg, receiver_msg, running_status}
use oxicast.Tests.Client.{commands}

abbrev build : ℕ → CastMessage
build id = Receiver.get_status json id

-- The answer comes before a message about another request.
abbrev reply : Reply Json
reply = record {
  accepted = true;
  meanwhile = reads receiver_msg ∷ reads media_msg ∷ [];
  outcome = received running_status;
}

request-IsTold_example :
    IsTold json to_f32 (request json to_f32 build reply app_client).1.tracker 4 running_status
unfolding commands
request-IsTold_example =
    request-IsTold json to_f32 build app_client reply [] (reads media_msg ∷ []) receiver_msg 8
      running_status refl refl refl tt refl refl (omega arith) (inl refl)
