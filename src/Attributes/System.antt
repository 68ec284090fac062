-- ===== src/Attributes/System.antt =====
-- The two goroutines of `AddAttributes` (pkg/provenance/attribute.go), one channel operation at a
-- time. The first prepares a message for each attribute, the second sends the messages in batches;
-- both report to the caller over channels without a buffer, so that each report is one step with it.
use prov_go.Base.{
  ◌<◌, ◌≡◌, Bool, true, false, List, [], ◌∷◌, ◌++◌, length, nat_eq, is_nil, Result, ok, err, Error,
  if◌then◌else◌, String,
}
use prov_go.Platform.{Platform, TxReply}
use prov_go.Client.Monad.{World}
use prov_go.Attributes.Defs.{Attribute, MsgAddAttribute, prepare, batch_size, send_batch}

-- The first goroutine: in its loop, before `attrErrChan <- err`, or after it has closed the queue.
pub data Preparer : Type 0 where
  checking : Preparer
  refusing : Error → Preparer
  closed : Preparer

-- The second: at the read of the queue, before a batch is signed, or with its outcome to report. The
-- flag says whether the queue has ended.
pub data Sender (M : Type 0) : Type 0 where
  reading : Sender M
  sending : List M → (last : Bool) → Sender M
  answering : Result TxReply → (last : Bool) → Sender M
  finished : Sender M

module _ (P : Platform) (pack : MsgAddAttribute → P.Msg) (owner : String) {A : Type 0}
    (existing : Attribute → Result (List A)) (attrs : List Attribute) where
  pub record Adding : Type 0 where
    pub preparer : Preparer
    pub left : List Attribute
    pub queue : List P.Msg  -- attrAddChan, with room for one message of each attribute
    pub sender : Sender P.Msg
    pub buff : List P.Msg
    pub world : World P
    pub refusals : List Error  -- what the caller has received from the first goroutine
    pub answers : List (Result TxReply)  -- and from the second, over both channels

  -- After a message has been added to the buffer, and after the end of the queue.
  abbrev pub filled : List P.Msg → Sender P.Msg
  filled buff = if nat_eq (length buff) batch_size then sending buff false else reading

  abbrev pub flushed : List P.Msg → Sender P.Msg
  flushed buff = if is_nil buff then finished else sending buff true

  abbrev pub resume : Bool → Sender P.Msg
  resume true = finished
  resume false = reading

  pub data Step (s : Adding) : Adding → Type 0 where
    enqueue :
        {a : Attribute} {more : List Attribute} {m : MsgAddAttribute}
        → s.preparer ≡ checking
        → s.left ≡ a ∷ more
        → prepare owner a (existing a) ≡ ok m
        → length s.queue < length attrs
        → Step s (record s { left = more; queue = s.queue ++ pack m ∷ [] })
    refuse :
        {a : Attribute} {more : List Attribute} {e : Error}
        → s.preparer ≡ checking
        → s.left ≡ a ∷ more
        → prepare owner a (existing a) ≡ err e
        → Step s (record s { left = more; preparer = refusing e })
    report :
        {e : Error}
        → s.preparer ≡ refusing e
        → Step s (record s { preparer = checking; refusals = s.refusals ++ e ∷ [] })
    close : s.preparer ≡ checking → s.left ≡ [] → Step s (record s { preparer = closed })
    take :
        {m : P.Msg} {more : List P.Msg}
        → s.sender ≡ reading
        → s.queue ≡ m ∷ more
        → Step s
            (record s { queue = more; buff = s.buff ++ m ∷ []; sender = filled (s.buff ++ m ∷ []) })
    end :
        s.sender ≡ reading
        → s.queue ≡ []
        → s.preparer ≡ closed
        → Step s (record s { sender = flushed s.buff })
    send :
        {batch : List P.Msg} {last : Bool}
        → s.sender ≡ sending batch last
        → Step s (record s {
          buff = [];
          world = (send_batch P batch s.world).1;
          sender = answering (send_batch P batch s.world).0 last;
        })
    -- A response goes over the one channel, an error over the other; a panic ends the program.
    respond :
        {reply : TxReply} {last : Bool}
        → s.sender ≡ answering (ok reply) last
        → Step s (record s { sender = resume last; answers = s.answers ++ ok reply ∷ [] })
    complain :
        {e : Error} {last : Bool}
        → s.sender ≡ answering (err e) last
        → Step s (record s { sender = resume last; answers = s.answers ++ err e ∷ [] })

  abbrev pub begin : World P → Adding
  begin w = record {
    preparer = checking;
    left = attrs;
    queue = [];
    sender = reading;
    buff = [];
    world = w;
    refusals = [];
    answers = [];
  }

  pub data Reach (w : World P) : Adding → Type 0 where
    start : Reach w (begin w)
    later : {s t : Adding} → Reach w s → Step s t → Reach w t
