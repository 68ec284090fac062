-- ===== src/Attributes/Renderer.antt =====
-- The progress display of `AddAttributes` (pkg/provenance/attribute.go, Renderer), as what it prints.
-- Its mutex makes each call one step.
use prov_go.Base.{
  ℕ, take, ◌+◌, ◌≡◌, refl, ap, ◌∙◌, Bool, true, false, List, [], ◌∷◌, ◌++◌, if◌then◌else◌, arith,
}

-- What one print writes: the dashes with a newline, "\x1b[2A", and a line that is cleared first. A text
-- is its bytes.
pub data Print : Type 0 where
  rule : Print
  up_two : Print
  number_line : ℕ → Print
  message_line : List ℕ → Print

pub record Renderer : Type 0 where
  pub first : Bool
  pub count : ℕ
  pub current : List ℕ

unfoldable pub new_renderer : Renderer
new_renderer = record { first = true; count = 0; current = [] }

-- The message is `r.Current[0:min(len(r.Current), 80)]`.
unfoldable pub render : Renderer → Renderer × List Print
render r = (
  record r { first = false },
  (if r.first then rule else up_two) ∷ number_line r.count ∷ message_line (take 80 r.current) ∷ [],
)

unfoldable pub increment_count : Renderer → Renderer × List Print
unfolding render
increment_count r = render (record r { count = r.count + 1 })

unfoldable pub set_current : List ℕ → Renderer → Renderer × List Print
unfolding render
set_current msg r = render (record r { current = msg })

pub data Call : Type 0 where
  counted : Call
  told : List ℕ → Call

abbrev pub run_call : Call → Renderer → Renderer × List Print
run_call counted r = increment_count r
run_call (told msg) r = set_current msg r

unfoldable pub run_calls : List Call → Renderer → Renderer × List Print
run_calls [] r = (r, [])
run_calls (c ∷ cs) r =
    let (r', out) = run_call c r in let (r'', more) = run_calls cs r' in (r'', out ++ more)

-- A terminal: the lines above the cursor, last first, and those from it on. A line that is written
-- takes the place of the one at the cursor.
pub record Terminal : Type 0 where
  pub above : List Print
  pub below : List Print

abbrev written : Print → Terminal → Terminal
written line t = elim (t.below) [
  | [] ↦ record { above = line ∷ t.above; below = [] }
  | _ ∷ more ↦ record { above = line ∷ t.above; below = more }
]

abbrev raised : Terminal → Terminal
raised t = elim (t.above) [ [] ↦ t | a ∷ more ↦ record { above = more; below = a ∷ t.below } ]

unfoldable pub show : Terminal → Print → Terminal
show t up_two = raised (raised t)
show t rule = written rule t
show t (number_line n) = written (number_line n) t
show t (message_line s) = written (message_line s) t

unfoldable pub show_all : Terminal → List Print → Terminal
unfolding show
show_all t [] = t
show_all t (p ∷ ps) = show_all (show t p) ps

abbrev pub blank : Terminal
blank = record { above = []; below = [] }

-- Three lines: the dashes, a number, and at most 80 bytes of a message.
abbrev pub shown : ℕ → List ℕ → Terminal
shown n msg = record { above = message_line (take 80 msg) ∷ number_line n ∷ rule ∷ []; below = [] }

-- How often `IncrementCount` is called.
abbrev pub counts : List Call → ℕ
counts [] = 0
counts (counted ∷ cs) = counts cs + 1
counts (told _ ∷ cs) = counts cs

-- The message of the last call of `SetCurrent`, or this one where there is none.
abbrev pub last_told : List ℕ → List Call → List ℕ
last_told msg [] = msg
last_told msg (counted ∷ cs) = last_told msg cs
last_told msg (told new ∷ cs) = last_told new cs

calls_again :
    (cs : List Call) (r : Renderer)
    → r.first ≡ false
    → show_all (shown r.count r.current) (run_calls cs r).1
      ≡ shown (r.count + counts cs) (last_told r.current cs)
unfolding run_calls increment_count set_current show_all
calls_again [] r e = ap (λ n. shown n r.current) (omega arith)
calls_again (counted ∷ cs) r e =
    let same : r.count + 1 + counts cs ≡ r.count + (counts cs + 1) = omega arith in
    let screen = calls_again cs (record r { first = false; count = r.count + 1 }) refl in
    rw e (screen ∙ ap (λ n. shown n (last_told r.current cs)) same)
calls_again (told msg ∷ cs) r e =
    rw e (calls_again cs (record r { first = false; current = msg }) refl)

-- After one call or more of a new renderer, with messages that take one line of the terminal: it shows
-- three lines and no more, the dashes, the number of the calls of `IncrementCount`, and the first 80
-- bytes of the message of the last call of `SetCurrent`, or none where there was no such call.
pub screen_shows :
    (c : Call) (cs : List Call)
    → show_all blank (run_calls (c ∷ cs) new_renderer).1
      ≡ shown (counts (c ∷ cs)) (last_told [] (c ∷ cs))
unfolding run_calls increment_count set_current show_all new_renderer
screen_shows counted cs =
    let screen = calls_again cs (record { first = false; count = 1; current = [] }) refl in
    screen ∙ ap (λ n. shown n (last_told [] cs)) (omega arith)
screen_shows (told msg) cs =
    let screen = calls_again cs (record { first = false; count = 0; current = msg }) refl in
    screen ∙ ap (λ n. shown n (last_told msg cs)) (omega arith)
