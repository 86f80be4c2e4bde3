-- ===== src/Site/Once.antt =====
-- A kind of request that the page sends only while it waits for none of that kind.
use ingestion_engine.Prelude.{
  ℕ, ◌+◌, ◌≡◌, sym, ◌∙◌, arith, String, Bool, true, false, Option, List, ◌∷◌, ◌++◌, if◌then◌else◌,
}
use ingestion_engine.GoFiles.{Entries}
use ingestion_engine.Server.{Request, Response, handle}
use ingestion_engine.Dashboard.Home.{poll}
use ingestion_engine.Dashboard.Sender.{Texts}
use ingestion_engine.Dashboard.Page.{Page, PageEvent, press}
use ingestion_engine.Dashboard.Page.Free.{IsFree}
use ingestion_engine.Dashboard.Page.Answers.{follow_up}
use ingestion_engine.Site.{
  Pending, asked, replied, Site, requests_of, ask_all, answered, lost, SiteStep, user, interval,
  timer, serve, answer, lose_request, lose_answer, Reaches, here, next,
}
use ingestion_engine.Site.Counts.{request_of, tally, under_way, under_way-append}

module _ (includes : String → String → Bool) (tree : Option Entries) (is_kind : Request → Bool)
    (flag : Page → Bool) where
  -- What the page has to do for a flag to say that a request of the kind is under way.
  pub record IsGuarded : Type 0 where
    pub pressing :
        (texts : Texts) (e : PageEvent) (p : Page)
        → IsFree texts p e
        → under_way is_kind (requests_of tree (press texts e p).0) + tally (flag p)
          ≡ tally (flag (press texts e p).1)
    pub polling : under_way is_kind (ask_all poll) ≡ 0
    pub following : (r : Request) → under_way is_kind (ask_all (follow_up r)) ≡ 0
    pub answering :
        (now : String) (r : Request) (a : Response) (p : Page)
        → tally (flag (answered includes now r a p)) ≡ (if is_kind r then 0 else tally (flag p))
    pub losing :
        (message : String) (r : Request) (p : Page)
        → tally (flag (lost includes message r p)) ≡ (if is_kind r then 0 else tally (flag p))

  -- The flag is up while one request of the kind is under way, and none is while it is down.
  abbrev pub IsMarked : Site → Type 0
  IsMarked w = under_way is_kind w.pending ≡ tally (flag w.page)

  module _ (guarded : IsGuarded) where
    less_one :
        (b f : Bool) (before after new : ℕ)
        → before + (tally b + after) ≡ tally f
        → new ≡ (if b then 0 else tally f)
        → before + after ≡ new
    less_one true true before after new h k = omega arith
    less_one true false before after new h k = absurd (omega arith)
    less_one false f before after new h k = omega arith

    -- One that is done with leaves the count that its kind asks for.
    removed :
        (x : Pending) (l m : List Pending) (f : Bool) (new : ℕ)
        → under_way is_kind (l ++ x ∷ m) ≡ tally f
        → new ≡ (if is_kind (request_of x) then 0 else tally f)
        → under_way is_kind (l ++ m) ≡ new
    removed x l m f new h k =
        under_way-append is_kind l m
        ∙ less_one (is_kind (request_of x)) f (under_way is_kind l) (under_way is_kind m) new
            (sym (under_way-append is_kind l (x ∷ m)) ∙ h) k

    step-IsMarked : {w v : Site} → SiteStep includes tree w v → IsMarked w → IsMarked v
    step-IsMarked (user texts e g p l free) h = omega (
      arith,
      h,
      under_way-append is_kind l (requests_of tree (press texts e p).0),
      guarded.pressing texts e p free,
    )
    step-IsMarked (interval g p l) h =
        omega (arith, h, under_way-append is_kind l (ask_all poll), guarded.polling)
    step-IsMarked (timer env a g p l) h = h
    step-IsMarked (serve env r g p l m) h = omega (
      arith,
      h,
      under_way-append is_kind l (asked r ∷ m),
      under_way-append is_kind l (replied r (handle env r g).0 ∷ m),
    )
    step-IsMarked (answer now r a g p l m) h = omega (
      arith,
      removed (replied r a) l m (flag p) _ h (guarded.answering now r a p),
      under_way-append is_kind (l ++ m) (ask_all (follow_up r)),
      guarded.following r,
    )
    step-IsMarked (lose_request message r g p l m) h =
        removed (asked r) l m (flag p) _ h (guarded.losing message r p)
    step-IsMarked (lose_answer message r a g p l m) h =
        removed (replied r a) l m (flag p) _ h (guarded.losing message r p)

    pub Reaches-IsMarked : {w v : Site} → Reaches includes tree w v → IsMarked w → IsMarked v
    Reaches-IsMarked here h = h
    Reaches-IsMarked (next r s) h = step-IsMarked s (Reaches-IsMarked r h)
