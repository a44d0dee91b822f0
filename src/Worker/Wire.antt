-- ===== src/Worker/Wire.antt =====
-- A codec of envelopes for the tests: escaped texts, one after the other.
use clawndom.Common.{String, false, Option, none, some, List, ◌∷◌, ◌≡◌, refl}
use clawndom.Common.Pieces.{
  write, read, read-write, unary, count, count-unary, mark, unmark, unmark-mark,
}
use clawndom.Worker.Envelope.{EnvelopeContext, JobEnvelope, Codec}

unfoldable pub write_context : Option EnvelopeContext → String
write_context none = ""
write_context (some c) = write c.id (write c.title (write c.status ""))

unfoldable pub read_context : List String → Option EnvelopeContext
read_context (i ∷ t ∷ s ∷ rest) = some (record { id = i; title = t; status = s })
read_context pieces = none

unfoldable pub from_pieces : List String → Option JobEnvelope
from_pieces (payload ∷ attempt ∷ original ∷ session ∷ rest) = some (record {
  payload = payload;
  attempt = count attempt;
  original_job_id = unmark original;
  context = read_context rest;
  session_id = unmark session;
})
from_pieces pieces = none

unfoldable pub stringify : JobEnvelope → String
stringify e = write e.payload (
    write (unary e.attempt)
      (write (mark e.original_job_id) (write (mark e.session_id) (write_context e.context))))

read_context-write : (o : Option EnvelopeContext) → read_context (read false (write_context o)) ≡ o
unfolding read_context write_context read
read_context-write none = refl
read_context-write (some c) = rw (
  read-write c.id (write c.title (write c.status "")),
  read-write c.title (write c.status ""),
  read-write c.status "",
)

pub parse-stringify : (e : JobEnvelope) → from_pieces (read false (stringify e)) ≡ some e
unfolding from_pieces stringify
parse-stringify e = rw (
  read-write e.payload _,
  read-write (unary e.attempt) _,
  read-write (mark e.original_job_id) _,
  read-write (mark e.session_id) (write_context e.context),
  count-unary e.attempt,
  unmark-mark e.original_job_id,
  unmark-mark e.session_id,
  read_context-write e.context,
)

unfoldable pub codec : Codec
unfolding from_pieces read stringify
codec = record {
  stringify = stringify;
  parse = λ text. from_pieces (read false text);
  parse-stringify = parse-stringify;
}
