-- ===== src/Docs/Conforms.antt =====
-- The JSON of a status of upload/handler.go against the schemas of docs/docs.go.
use mathlib.Core.Option
use deliverator.Base.{
  ◌^◌, ◌<◌, ◌≡◌, refl, arith, String, Bool, true, false, not, ◌&&◌, Option, none, some, [], ◌∷◌,
  All, str_eq, eq_iff, if◌then◌else◌, Option-cases, inl, inr,
}
use deliverator.Base.Int.{ℤ, pos}
use deliverator.Conf.Numbers.{itoa}
use deliverator.Conf.Numbers.RoundTrip.{parse_int-itoa}
use deliverator.Upload.Task.{Float64, Task}
use deliverator.Upload.Task.Integers.{Fits, IsInt64}
use deliverator.Upload.Serve.{RequestStatus}
use deliverator.Upload.Json.{
  Value, text, numeral, object, Members, end, Texts, put, marshal_text, task_members,
  status_members,
}
use deliverator.Docs.{
  Schema, string_type, Properties, request_status, find_property, is_integer, conforms,
  members_conform,
}

itoa-is_integer : (z : ℤ) → Fits z → is_integer (itoa z) ≡ true
itoa-is_integer z f = rw (parse_int-itoa z f.0 f.1, (eq_iff (itoa z) (itoa z)).1 refl)

module _ (strict : Bool) where
  -- A member conforms: it is not written, or its property allows its value, or it has none and the
  -- schema is not taken strictly.
  abbrev allowed : Option Schema → Option Value → Bool
  allowed f none = true
  allowed none (some v) = not strict
  allowed (some s) (some v) = conforms strict s v

  and-true : (a b : Bool) → a ≡ true → b ≡ true → (a && b) ≡ true
  and-true a b ha hb = rw (ha, hb)

  end-conforms : (ps : Properties) → members_conform strict ps end ≡ true
  unfolding members_conform
  end-conforms ps = refl

  put-conforms :
      (ps : Properties) (key : String) (o : Option Value) (ms : Members)
      → allowed (find_property key ps) o ≡ true
      → members_conform strict ps ms ≡ true
      → members_conform strict ps (put key o ms) ≡ true
  unfolding put members_conform
  put-conforms ps key none ms h rest = rest
  put-conforms ps key (some v) ms h rest = elim (Option-cases (find_property key ps)) [
    | inl e ↦ rw (members_conform, e) (and-true _ _ (rw e at h) rest)
    | inr (p, e) ↦ rw (members_conform, e) (and-true _ _ (rw e at h) rest)
  ]

  unless-allowed :
      (f : Option Schema) (b : Bool) (v : Value)
      → allowed f (some v) ≡ true
      → allowed f (if b then none else some v) ≡ true
  unless-allowed f true v h = refl
  unless-allowed f false v h = h

  nil-allowed :
      {A : Type 0} (f : Option Schema) (g : A → Value) (o : Option A)
      → ((a : A) → allowed f (some (g a)) ≡ true)
      → allowed f (Option.map g o) ≡ true
  nil-allowed f g none h = refl
  nil-allowed f g (some a) h = h a

  -- The properties allow every text, every numeral of an integer and every numeral for the members of
  -- a task that are these.
  pub record IsTask (ps : Properties) : Type 0 where
    pub texts :
        (s : String)
        → All
            (λ key. allowed (find_property key ps) (some (text s)) ≡ true)
            ("id" ∷ "uri" ∷ "file" ∷ "slug" ∷ "upload_total" ∷ "upload_rate" ∷ [])
    pub integers :
        (s : String)
        → is_integer s ≡ true
        → All
            (λ key. allowed (find_property key ps) (some (numeral s)) ≡ true)
            ("upload_attempts" ∷ "upload_size_bytes" ∷ "upload_parts" ∷ [])
    pub numbers :
        (s : String)
        → All
            (λ key. allowed (find_property key ps) (some (numeral s)) ≡ true)
            ("upload_total_seconds" ∷ "upload_queued_seconds" ∷ "upload_transfer_seconds"
              ∷ "upload_rate_bytes" ∷ [])

  module _ {F : Type 0} (fl : Float64 F) (x : Texts F) where
    task_members-conform :
        (ps : Properties) (t : Task F)
        → IsTask ps
        → IsInt64 t
        → members_conform strict ps (task_members fl x t) ≡ true
    unfolding task_members
    task_members-conform ps t d i =
        let tx = d.texts in
        let nm = d.numbers in
        let attempts = d.integers _ (itoa-is_integer t.upload_attempts i.attempts) in
        let size = d.integers _ (itoa-is_integer t.upload_size_bytes i.size) in
        let parts = d.integers _ (itoa-is_integer t.upload_parts i.parts) in
        put-conforms _ _ _ _ (tx (x.uuid_text t.id)).0 (
          put-conforms _ _ _ _ (nil-allowed _ _ t.uri (λ u. (tx (marshal_text u)).1.0)) (
            put-conforms _ _ _ _ (nil-allowed _ _ t.file (λ s. (tx s).1.1.0)) (
              put-conforms _ _ _ _ (nil-allowed _ _ t.slug (λ s. (tx s).1.1.1.0)) (
                put-conforms _ _ _ _ (unless-allowed _ _ _ (tx t.upload_total).1.1.1.1.0) (
                  put-conforms _ _ _ _
                    (unless-allowed _ _ _ (nm (x.float_text t.upload_total_seconds)).0)
                    (put-conforms _ _ _ _
                      (unless-allowed _ _ _ (nm (x.float_text t.upload_queued_seconds)).1.0)
                      (put-conforms _ _ _ _
                        (unless-allowed _ _ _ (nm (x.float_text t.upload_transfer_seconds)).1.1.0)
                        (put-conforms _ _ _ _ (unless-allowed _ _ _ attempts.0) (
                          put-conforms _ _ _ _ size.1.0 (
                            put-conforms _ _ _ _
                              (unless-allowed _ _ _ (tx t.upload_transfer_rate).1.1.1.1.1.0)
                              (put-conforms _ _ _ _
                                (unless-allowed _ _ _
                                  (nm (x.float_text t.upload_transfer_rate_bytes)).1.1.1.0)
                                (put-conforms _ _ _ _ (unless-allowed _ _ _ parts.1.1.0)
                                  (end-conforms ps)))))))))))))

    -- A status of which the code is an int64.
    pub status_conforms :
        (ps : Properties) (st : RequestStatus F)
        → IsTask ps
        → IsInt64 st.task
        → st.code < 2 ^ 63
        → conforms strict (request_status ps) (object (status_members fl x st)) ≡ true
    unfolding conforms status_members
    status_conforms ps st d i c = put-conforms _ _ _ _ refl (
        put-conforms _ _ _ _ (itoa-is_integer (pos st.code) (omega arith, c)) (
          put-conforms _ _ _ _
            (unless-allowed (some string_type) (str_eq st.msg "") (text st.msg) refl)
            (put-conforms _ _ _ _ (task_members-conform ps st.task d i) refl)))
