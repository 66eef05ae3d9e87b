-- ===== src/Connector/Ordering/Watermark.antt =====
-- The watermark that an order keeps of its events, and that it does not depend on the order in
-- which they arrive.
use mathlib.Core.List.{Perm, Permᴰ}
use mathlib.Core.Logic.{∥∥₁_elim}
use personalisation_kings.Base.{
  Option, none, some, List, [], ◌∷◌, ◌≡◌, refl, ap, ◌∙◌, if◌then◌else◌, arith,
}
use native.Mathlib.Decide.{ℕ_discrete}
use personalisation_kings.Connector.Types.{Date, EventType}
use personalisation_kings.Connector.Ordering.{is_stale_order_event}

-- `lastEventAt` and `lastEventType` of an order that has seen an event.
pub record Watermark : Type 0 where
  pub at : Date
  pub event_type : EventType

-- What an incoming event leaves: the watermark as it was if it is stale, else its own.
unfoldable pub observe : Option Watermark → Watermark → Option Watermark
unfolding is_stale_order_event
observe none e = some e
observe (some w) e =
    if is_stale_order_event (some w.at) (some w.event_type) e.event_type e.at
    then some w
    else some e

unfoldable pub observe_all : Option Watermark → List Watermark → Option Watermark
unfolding observe
observe_all w [] = w
observe_all w (e ∷ es) = observe_all (observe w e) es

observe_comm :
    (w : Option Watermark) (a b : Watermark) → observe (observe w a) b ≡ observe (observe w b) a
unfolding observe
observe_comm none a b = ground arith
observe_comm (some w) a b = ground arith

observe_all-permᴰ :
    {xs ys : List Watermark}
    → Permᴰ xs ys
    → (w : Option Watermark) → observe_all w xs ≡ observe_all w ys
unfolding observe_all
observe_all-permᴰ Permᴰ.nil w = refl
observe_all-permᴰ (Permᴰ.cons {a} {b} {l₁} {l₂} e p) w =
    ap (λ x. observe_all (observe w x) l₁) e ∙ observe_all-permᴰ p (observe w b)
observe_all-permᴰ (Permᴰ.swap {a} {b} {a'} {b'} {l} e f) w =
    ap (λ x. observe_all x l) (cc (observe_comm w a b))
observe_all-permᴰ (Permᴰ.trans p q) w = observe_all-permᴰ p w ∙ observe_all-permᴰ q w

Watermark-discrete : Discrete Watermark
Watermark-discrete = hlevel ℕ_discrete

Watermark-set : IsSet (Option Watermark)
Watermark-set = hlevel

-- Events leave the same watermark in whatever order they arrive, first event or later.
pub observe_all-perm :
    {xs ys : List Watermark} (w : Option Watermark)
    → Perm xs ys
    → observe_all w xs ≡ observe_all w ys
observe_all-perm w p = ∥∥₁_elim p (Watermark-set _ _) (λ d. observe_all-permᴰ d w)
