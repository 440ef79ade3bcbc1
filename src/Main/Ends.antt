-- ===== src/Main/Ends.antt =====
-- How main of cmd/s3nd/main.go ends.
mod Codes
use Codes.{
  Start-cases, started-ne-exited, Code, code_of, new_s3nd_conf-Code, CanStart, started-CanStart,
  CanStart-started,
}
use deliverator.Base.{
  Outcome, zero, suc, arith, panicked, Outcome-cases, subst, not, ◌&&◌, ℕ, ◌≡◌, ◌≢◌, ◌⊎◌, inl, inr,
  refl, sym, ap, ◌∙◌, String, Bool, true, Option, none, some, List, [], ◌∷◌, map, returned, str_eq,
  if◌then◌else◌, Option-cases, Bool-cases,
}
use deliverator.Errors.{GoError, error_text}
use deliverator.Conf.{
  Conf, Formats, Env, CommandLine, Start, started, exited, ◌>>=◌, require, or_else, new_s3nd_conf,
}
use deliverator.Base.Int.{ℤ, pos, negsuc, pos_part}
use deliverator.Semaphore.{Msemaphore}
use deliverator.Semaphore.Laws.{IsCounting}
use deliverator.ConnTracker.Tracker.{Sockets}
use deliverator.Upload.Handler.{Handler, new_handler, update_pacing_rate, new_s3nd_handler}
use deliverator.Upload.Handler.Returns.{update_pacing_rate-Returns}
use deliverator.Upload.Clients.{Transport, start_handler}
use deliverator.Collector.{Desc, descs}
use deliverator.Main.{Server, End, exits, panics, serves, new_server, exit_code, serve, main}

some-ne-none : {A : Type 0} (a : A) → some a ≢ none
some-ne-none a h = cc

panicked-ne-returned : {A : Type 0} (msg : String) (a : A) → panicked msg ≢ returned a
panicked-ne-returned msg a h = cc

panicked-other :
    {A B : Type 0} (m n : String)
    → ◌≡◌ {A = Outcome A} (panicked m) (panicked n)
    → ◌≡◌ {A = Outcome B} (panicked m) (panicked n)
panicked-other m n e = ap panicked (ap (λ o. elim o [ returned a ↦ m | panicked x ↦ x ]) e)

-- The names are all different.
abbrev absent : String → List String → Bool
absent n [] = true
absent n (k ∷ ks) = not (str_eq n k) && absent n ks

abbrev pub distinct : List String → Bool
distinct [] = true
distinct (n ∷ ns) = absent n ns && distinct ns

-- An empty registry takes a collector whose metrics have different names.
abbrev pub Registers : (List Desc → Option GoError) → Type 0
Registers register = (ds : List Desc) → distinct (map (λ d. d.name) ds) ≡ true → register ds ≡ none

collector-distinct : distinct (map (λ d. d.name) (map (λ d. d.1) descs)) ≡ true
collector-distinct = refl

module _ {S : Type 0} (m : Msemaphore S) (k : Sockets) (rates : ℕ → ℕ) (t : Transport)
    (load_error : Option GoError) (register : List Desc → Option GoError)
    (listen : Server S → Option GoError) (f : Formats) (env : Env) (line : CommandLine)
    (v : String) where
  abbrev pub Ended : End S → Type 0
  Ended (exits code msg) = (code ≡ code_of line) × (¬ (CanStart f env line v × (load_error ≡ none)))
  Ended (panics msg) =
      CanStart f env line v
      × (load_error ≡ none)
      × ((c : Conf) × (new_s3nd_conf f env line v ≡ started c)
          × (m.new c.upload_max_parallel ≡ panicked msg)
          × (pos_part c.upload_max_parallel ≡ 0))
  Ended (serves s code) =
      CanStart f env line v
      × (load_error ≡ none)
      × ((c : Conf) × (h : Handler S) × (new_s3nd_conf f env line v ≡ started c)
          × (new_s3nd_handler m k c rates ≡ returned h)
          × (s ≡ new_server v c h)
          × (code ≡ exit_code (listen s)))

  not-startable :
      (code : ℕ) (msg : String)
      → new_s3nd_conf f env line v ≡ exited code msg
      → ¬ (CanStart f env line v × (load_error ≡ none))
  not-startable code msg e (st, n) =
      let (c, x) = CanStart-started f env line v st in started-ne-exited c code msg (sym x ∙ e)

  startable : (c : Conf) → new_s3nd_conf f env line v ≡ started c → CanStart f env line v
  startable c e = (started-CanStart f env line v c e).0

  exits-loading :
      (c : Conf) (x : GoError)
      → new_s3nd_conf f env line v ≡ started c
      → load_error ≡ some x
      → Ended (exits 1 (error_text x))
  exits-loading c x e l =
      (sym (started-CanStart f env line v c e).1, λ p. some-ne-none x (sym l ∙ p.1))

  main-exits :
      (code : ℕ) (msg : String)
      → new_s3nd_conf f env line v ≡ exited code msg
      → main m k rates t load_error register listen f env line v ≡ exits code msg
  unfolding main
  main-exits code msg e = rw (e, main) refl

  main-loading :
      (c : Conf) (x : GoError)
      → new_s3nd_conf f env line v ≡ started c
      → load_error ≡ some x
      → main m k rates t load_error register listen f env line v ≡ exits 1 (error_text x)
  unfolding main start_handler
  main-loading c x e l = rw (e, main, l, start_handler) refl

  limit-new : IsCounting m → (z : ℤ) (msg : String) → m.new z ≡ panicked msg → pos_part z ≡ 0
  limit-new laws (pos zero) msg e = refl
  limit-new laws (pos (suc n)) msg e =
      let (s, made) = laws.new-returns (suc n) (omega arith) in
      absurd (panicked-ne-returned msg s (sym e ∙ made))
  limit-new laws (negsuc n) msg e = refl

  -- Only the making of the semaphore can panic in NewS3ndHandler.
  handler-panics :
      (c : Conf) (msg : String)
      → new_s3nd_handler m k c rates ≡ panicked msg
      → m.new c.upload_max_parallel ≡ panicked msg
  unfolding new_s3nd_handler
  handler-panics c msg e = elim (Outcome-cases (m.new c.upload_max_parallel)) [
    | inl (i, made) ↦
        let (h, u) =
          update_pacing_rate-Returns m k
            (new_handler m c rates (record { inner = i; waiters = 0 })) in
        absurd (panicked-ne-returned msg h (sym (rw (made, new_s3nd_handler) at e) ∙ u))
    | inr (msg', p) ↦ p ∙ panicked-other msg' msg (rw (p, new_s3nd_handler) at e)
  ]

  main-panics :
      (c : Conf) (msg : String)
      → new_s3nd_conf f env line v ≡ started c
      → load_error ≡ none
      → new_s3nd_handler m k c rates ≡ panicked msg
      → main m k rates t load_error register listen f env line v ≡ panics msg
  unfolding main start_handler serve
  main-panics c msg e n made = rw (e, main, n, start_handler, made, serve) refl

  main-serves :
      Registers register
      → (c : Conf) (h : Handler S) → new_s3nd_conf f env line v ≡ started c
      → load_error ≡ none
      → new_s3nd_handler m k c rates ≡ returned h
      → main m k rates t load_error register listen f env line v
        ≡ serves (new_server v c h) (exit_code (listen (new_server v c h)))
  unfolding main start_handler serve
  main-serves registers c h e n made =
      rw
        (
          e,
          main,
          n,
          start_handler,
          made,
          registers (map (λ d. d.1) descs) collector-distinct,
          serve,
        )
        refl

  -- Where an empty registry takes any collector whose metrics have different names, and the semaphore
  -- can be made with any limit of at least 1: whatever the environment and the command line are, main
  -- listens if flag.Parse returns, NewS3ndConf finds all that it requires, the AWS library loads its
  -- configuration, and the limit of parallel parts is at least 1; with the server of that
  -- configuration and of the handler that NewS3ndHandler makes of it, and the exit code of
  -- ListenAndServe's error. Only for a limit below 1 may it panic, if making the semaphore does. Else
  -- it exits before: with code 2 if flag.Parse cannot read the command line, with 0 if that asks for
  -- the usage or, with -version, for the version, and with 1 in every other case.
  pub main-Ended :
      Registers register
      → IsCounting m
      → Ended (main m k rates t load_error register listen f env line v)
  main-Ended registers laws = elim (Start-cases (new_s3nd_conf f env line v)) [
    | inl (code, msg, e) ↦
        subst Ended (sym (main-exits code msg e))
          ((new_s3nd_conf-Code f env line v).of_exit code msg e, not-startable code msg e)
    | inr (c, e) ↦ elim (Option-cases load_error) [
      | inr (x, l) ↦ subst Ended (sym (main-loading c x e l)) (exits-loading c x e l)
      | inl n ↦ elim (Outcome-cases (new_s3nd_handler m k c rates)) [
        | inl (h, made) ↦
            subst Ended (sym (main-serves registers c h e n made))
              (startable c e, n, (c, h, e, made, refl, refl))
        | inr (msg, p) ↦
            let q = handler-panics c msg p in
            subst Ended (sym (main-panics c msg e n p))
              (startable c e, n, (c, e, q, limit-new laws c.upload_max_parallel msg q))
      ]
    ]
  ]
