-- ===== src/Listen.antt =====
-- internal/app/listen.go, internal/app/discover.go and internal/app/capture.go: the lines that
-- `discover` and `capture` print. Each method of the emitter holds its mutex, so it is one step; so is
-- `observe`, which the client calls for one message at a time. A panic is `none`.
pub mod Channels
pub mod Prefixes
pub mod Escapes
use mqtt2prometheus.Base.{
  Text, ℕ, ◌+◌, Bool, true, false, ◌&&◌, ◌||◌, ◌==◌, ltb, leb, eqb, codes, Option, none, some, List,
  [], ◌∷◌, ◌++◌, length, take, split, join, if◌then◌else◌,
}
use mqtt2prometheus.Base.Dict.{Keys, contains, add}
use mqtt2prometheus.Router.{Message}

abbrev pub line_buffer : ℕ
line_buffer = 1024

-- `out` is what is in the channel; `full_closed` and `out_closed` tell which channels are closed, and
-- `printed` is what `drainLines` has read. A limit below 0 is refused by the commands.
pub record Emitter : Type 0 where
  pub limit : ℕ
  pub out : List Text
  pub out_closed : Bool
  pub full_closed : Bool
  pub count : ℕ
  pub closed : Bool
  pub printed : List Text

unfoldable pub new_emitter : ℕ → Emitter
new_emitter limit = record {
  limit = limit;
  out = [];
  out_closed = false;
  full_closed = false;
  count = 0;
  closed = false;
  printed = [];
}

unfoldable pub at_limit : Emitter → Bool
at_limit e = ltb 0 e.limit && leb e.limit e.count

-- `close(e.full)`, which panics on a closed channel
unfoldable pub close_full : Emitter → Option Emitter
close_full e = if e.full_closed then none else some (record e { full_closed = true })

-- the `select` of `emit`: a send on a closed channel panics
unfoldable pub send : Emitter → Text → Option Emitter
unfolding at_limit close_full
send e line =
    if e.out_closed
    then none
    else if ltb (length e.out) line_buffer
    then (let sent : Emitter = record e { out = e.out ++ line ∷ []; count = e.count + 1 } in
        if at_limit sent then close_full sent else some sent)
    else some e

unfoldable pub emit : Emitter → Text → Option Emitter
unfolding send
emit e line = if e.closed || at_limit e then some e else send e line

unfoldable pub close : Emitter → Option Emitter
close e =
    if e.closed
    then some e
    else if e.out_closed
    then none
    else some (record e { closed = true; out_closed = true })

abbrev first_line : List Text → Emitter → Emitter
first_line [] e = e
first_line (line ∷ rest) e = record e { out = rest; printed = e.printed ++ line ∷ [] }

-- one round of `drainLines`, which waits where there is no line
unfoldable pub drain : Emitter → Emitter
drain e = first_line e.out e

pub record Discovery : Type 0 where
  pub depth : ℕ
  pub out : Emitter
  pub seen : Keys

unfoldable pub new_discovery : ℕ → ℕ → Discovery
new_discovery depth limit = record { depth = depth; out = new_emitter limit; seen = [] }

-- the `len(segments) <= depth` of the source, and `segments[:depth]`
unfoldable pub prefix_of : Text → ℕ → Text
prefix_of topic depth =
    let segments = split topic b'/' in
    if leb (length segments) depth then topic else join (take depth segments) (b'/' ∷ [])

abbrev pub with_out : Discovery → Option Emitter → Option Discovery
with_out d none = none
with_out d (some e) = some (record d { out = e })

-- `known` and, for a new prefix, `emit`
unfoldable pub observe : Discovery → Message → Option Discovery
unfolding prefix_of emit
observe d msg =
    let prefix = prefix_of msg.topic d.depth in
    if contains prefix d.seen
    then some d
    else with_out (record d { seen = add prefix d.seen }) (emit d.out prefix)

-- `strings.TrimSuffix(prefix, "/")`
unfoldable pub trim_slash : Text → Text
trim_slash [] = []
trim_slash (c ∷ []) = if eqb c b'/' then [] else c ∷ []
trim_slash (c ∷ d ∷ s) = c ∷ trim_slash (d ∷ s)

unfoldable pub topic_filter : Text → Text
unfolding trim_slash
topic_filter prefix = if prefix == [] then codes "#" else trim_slash prefix ++ codes "/#"

-- `payloadEscaper`, on one byte: each of its three texts is a single byte
abbrev escaped : ℕ → Text
escaped c =
    if eqb c b'\n'
    then codes "\\n"
    else if eqb c b'\r'
    then codes "\\r"
    else if eqb c b'\t'
    then codes "\\t"
    else c ∷ []

unfoldable pub escape_payload : Text → Text
escape_payload [] = []
escape_payload (c ∷ s) = escaped c ++ escape_payload s

unfoldable pub capture_line : Text → Text → Text
unfolding escape_payload
capture_line topic payload = topic ++ b'\t' ∷ escape_payload payload

unfoldable pub capture : Emitter → Message → Option Emitter
unfolding emit capture_line
capture e msg = emit e (capture_line msg.topic msg.payload)
