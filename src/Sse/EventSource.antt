-- ===== src/Sse/EventSource.antt =====
-- An independent description of what a browser makes of the stream of src/sse.rs: the events of an
-- `EventSource`, and the object that `JSON.parse` reads from the data of each.
use jzf407_rust.Prelude.{Bool, false, Option, none, some, List, [], ◌∷◌, Bytes, bytes_eq, unwrap_or}
use jzf407_rust.Text.{codes}
use jzf407_rust.Text.Split.{split, strip_prefix, after_first}
use jzf407_rust.Sse.{Snapshot}

abbrev newest : Option Bytes → Option Bytes → Option Bytes
newest kept none = kept
newest kept (some d) = some d

-- The data of the events in the lines of a stream: a `data: ` line is kept, a blank line sends what
-- was kept, and all other lines are passed over. (An event of this stream has one `data` line.)
unfoldable pub events_in : Option Bytes → List Bytes → List Bytes
events_in kept [] = []
events_in none ([] ∷ lines) = events_in none lines
events_in (some d) ([] ∷ lines) = d ∷ events_in none lines
events_in kept ((b ∷ l) ∷ lines) =
    events_in (newest kept (strip_prefix (codes "data: ") (b ∷ l))) lines

unfoldable pub events : Bytes → List Bytes
events stream = events_in none (split b'\n' stream)

-- The body of an answer.
unfoldable pub body_of : Bytes → Bytes
body_of answer = unwrap_or (after_first (codes "\r\n\r\n") answer) []

-- Whether the member of a flat object is 1.
unfoldable pub flag : Bytes → List Bytes → Bool
flag name [] = false
flag name (m ∷ members) =
    let later = flag name members in
    elim (strip_prefix name m) [ some v ↦ bytes_eq v (codes "1") | none ↦ later ]

-- The five flags of a flat object without commas in its strings.
unfoldable pub read_state : Bytes → Snapshot
read_state json =
    let members = split b',' (unwrap_or (strip_prefix (codes "{") json) []) in
    record {
      relay = flag (codes "\"relay\":") members;
      led1_on = flag (codes "\"led1\":") members;
      led2_on = flag (codes "\"led2\":") members;
      link = flag (codes "\"link\":") members;
      mqtt = flag (codes "\"mqtt\":") members;
    }

-- What the page shows after some events.
abbrev pub page_after : Snapshot → List Bytes → Snapshot
page_after page [] = page
page_after page (d ∷ later) = page_after (read_state d) later
