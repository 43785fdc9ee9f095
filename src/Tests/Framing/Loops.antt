-- ===== src/Tests/Framing/Loops.antt =====
-- Runs of the reader's and the writer's loops, over streams that are lists of bytes.
use oxicast.Common.{ℕ, ◌≡◌, refl, arith, String, true, none, some, List, [], ◌∷◌, ◌++◌, inl, inr}
use oxicast.Event.{ConnectionState}
use oxicast.Error.{Error}
use oxicast.Message.{CastMessage}
use oxicast.Client.Loops.{Outbound, Inbound, writer_loop, reader_loop, reader_stops, hear_all}
use oxicast.Client.Loops.Termination.{Ends, reader_loop-Ends}
use oxicast.Client.Loops.Transport.{reader_loop-writer_loop}
use oxicast.Tests.Base.{json, to_f32, world}
use oxicast.Tests.Framing.{
  framing_tests, bytes, two, bytes-IsStream, bytes-IsSink, two-IsCodec, first_message,
  second_message,
}

loops : Unit {0}
unfolding framing_tests writer_loop reader_loop bytes-IsStream bytes-IsSink two-IsCodec
loops = tt

abbrev show_error : Error → String
show_error e = "error"

abbrev outbound : Outbound
outbound = record { alive = true; connection = ConnectionState.connected }

abbrev inbound : Inbound json.Value
inbound = record { world = world; alive = true; touches = 0 }

abbrev both : List CastMessage
both = first_message ∷ second_message ∷ []

abbrev both_bytes : List ℕ
both_bytes = 0 ∷ 0 ∷ 0 ∷ 1 ∷ 1 ∷ 0 ∷ 0 ∷ 0 ∷ 2 ∷ 2 ∷ 2 ∷ []

writer_tests : writer_loop bytes two both [] outbound ≡ (both_bytes, outbound)
unfolding loops
writer_tests = refl

reader_loop-Ends_example :
    Ends bytes two json to_f32 show_error bytes-IsStream
      (reader_loop bytes two json to_f32 show_error 13 (both_bytes ++ 0 ∷ []) inbound)
unfolding loops
reader_loop-Ends_example =
    reader_loop-Ends bytes two json to_f32 show_error bytes-IsStream 13 (both_bytes ++ 0 ∷ [])
      (both_bytes ++ 0 ∷ []) inbound refl (omega arith)

reader_loop-writer_loop_example :
    reader_loop bytes two json to_f32 show_error 3 both_bytes inbound
    ≡ some (reader_stops none (hear_all bytes two json to_f32 show_error both inbound))
unfolding loops
reader_loop-writer_loop_example =
    reader_loop-writer_loop bytes two bytes-IsStream two-IsCodec bytes-IsSink json to_f32 show_error
      both [] outbound both_bytes inbound (inl refl, (inr refl, tt)) refl refl (λ xs e. e)
