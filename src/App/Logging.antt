-- ===== src/App/Logging.antt =====
-- `configure_global_logging` of app/__init__.py: the handlers of the application's logger move to
-- the root logger. A handler is known by its identity, a number.
use notifications_template_p.Prelude.{
  ℕ, ◌==◌, ◌≡◌, refl, subst, ◌∙◌, ap, Bool, true, false, ◌||◌, List, [], ◌∷◌, ◌++◌, inl, inr, arith,
  Bool-cases, if◌then◌else◌,
}

-- What the source sees of the two loggers.
pub record Loggers : Type 0 where
  pub app_handlers : List ℕ
  pub root_handlers : List ℕ
  pub root_level : ℕ

-- `handler in handlers`
unfoldable pub has : ℕ → List ℕ → Bool
has h [] = false
has h (k ∷ ks) = h == k || has h ks

-- `handlers.remove(handler)`, if it is there.
unfoldable pub remove : ℕ → List ℕ → List ℕ
remove h [] = []
remove h (k ∷ ks) = let rest = remove h ks in if h == k then ks else k ∷ rest

-- `root_logger.addHandler(handler)` under the test that it is not there.
unfoldable pub add_handler : ℕ → List ℕ → List ℕ
add_handler h hs = if has h hs then hs else hs ++ (h ∷ [])

-- The loop over a copy of the application's handlers.
unfoldable pub move_handlers : List ℕ → Loggers → Loggers
move_handlers [] loggers = loggers
move_handlers (h ∷ hs) loggers = move_handlers hs (record loggers {
  root_handlers = add_handler h loggers.root_handlers;
  app_handlers = remove h loggers.app_handlers;
})

-- `logging.WARNING`
abbrev pub warning : ℕ
warning = 30

unfoldable pub configure_global_logging : Loggers → Loggers
configure_global_logging loggers = record (move_handlers loggers.app_handlers loggers) {
  root_level = warning;
}

-- No handler is there twice.
abbrev pub IsDistinct : List ℕ → Type 0
IsDistinct [] = Unit
IsDistinct (h ∷ hs) = (has h hs ≡ false) × IsDistinct hs

remove-head : (h : ℕ) (hs : List ℕ) → remove h (h ∷ hs) ≡ hs
unfolding remove
remove-head h hs = ground arith

has-append : (k h : ℕ) (hs : List ℕ) → has k (hs ++ (h ∷ [])) ≡ (has k hs || k == h)
unfolding has
has-append k h [] = ground arith
has-append k h (g ∷ hs) = ground (arith, has-append k h hs)

append-IsDistinct :
    (h : ℕ) (hs : List ℕ) → has h hs ≡ false → IsDistinct hs → IsDistinct (hs ++ (h ∷ []))
unfolding has
append-IsDistinct h [] new distinct = (refl, tt)
append-IsDistinct h (g ∷ hs) new (fresh, distinct) =
    (has-append g h hs ∙ ground arith, append-IsDistinct h hs (ground arith) distinct)

add_handler-IsDistinct : (h : ℕ) (hs : List ℕ) → IsDistinct hs → IsDistinct (add_handler h hs)
unfolding add_handler
add_handler-IsDistinct h hs distinct = elim (Bool-cases (has h hs)) [
  | inl e ↦ rw e distinct
  | inr e ↦ rw e (append-IsDistinct h hs e distinct)
]

already_there : (k h : ℕ) (hs : List ℕ) → has h hs ≡ true → has k hs ≡ (has k hs || k == h)
already_there k h hs e = elim (Bool-cases (k == h)) [
  | inl same ↦
      let there : has k hs ≡ true = subst (λ g. has g hs ≡ true) (ground arith) e in ground arith
  | inr other ↦ ground arith
]

has-add_handler : (k h : ℕ) (hs : List ℕ) → has k (add_handler h hs) ≡ (has k hs || k == h)
unfolding add_handler
has-add_handler k h hs = elim (Bool-cases (has h hs)) [
  | inl e ↦ rw (e, add_handler) (already_there k h hs e)
  | inr e ↦ rw (e, add_handler) (has-append k h hs)
]

move_handlers_lem :
    (hs : List ℕ) (loggers : Loggers)
    → loggers.app_handlers ≡ hs
    → IsDistinct loggers.root_handlers
    → let after = move_handlers hs loggers in
      (after.app_handlers ≡ [])
      × IsDistinct after.root_handlers
      × ((h : ℕ) → has h after.root_handlers ≡ (has h loggers.root_handlers || has h hs))
unfolding move_handlers has
move_handlers_lem [] loggers same distinct = (same, distinct, λ h. ground arith)
move_handlers_lem (h ∷ hs) loggers same distinct =
    let next : Loggers = record loggers {
      root_handlers = add_handler h loggers.root_handlers;
      app_handlers = remove h loggers.app_handlers;
    } in
    let (none_left, distinct', all) =
      move_handlers_lem hs next (ap (remove h) same ∙ remove-head h hs)
        (add_handler-IsDistinct h loggers.root_handlers distinct) in
    (none_left, distinct', λ k. all k ∙ ground (arith, has-add_handler k h loggers.root_handlers))

-- The set-up of logging leaves no handler on the application's logger, and every handler that was
-- on either logger, and no other one, on the root logger. No handler is there twice, if none was on
-- the root logger before, and the root logger passes on warnings and what is worse.
pub configure_global_logging-moves :
    (loggers : Loggers)
    → IsDistinct loggers.root_handlers
    → let after = configure_global_logging loggers in
      (after.app_handlers ≡ [])
      × (after.root_level ≡ warning)
      × IsDistinct after.root_handlers
      × ((h : ℕ)
          → has h after.root_handlers ≡ (has h loggers.root_handlers || has h loggers.app_handlers))
unfolding configure_global_logging
configure_global_logging-moves loggers distinct =
    let (none_left, distinct', all) =
      move_handlers_lem loggers.app_handlers loggers refl distinct in
    (none_left, refl, distinct', all)
