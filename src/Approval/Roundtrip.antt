-- ===== src/Approval/Roundtrip.antt =====
-- An override that is written is the value that the final strategy reads.
use google_ads_intelligence.Base.{
  ℕ, ◌≡◌, refl, ◌∙◌, ap, Bool, true, false, Option, none, some, if◌then◌else◌, inl, inr, Bool-cases,
}
use google_ads_intelligence.Base.Eq.{◌=?◌, mem, list_eq, nat_eq}
use google_ads_intelligence.Base.Dict.{
  Dict, Table, get_row, set_row, insert, lookup-insert_self, lookup-insert_ne,
}
use google_ads_intelligence.Base.Text.{Text}
use google_ads_intelligence.Base.Float.{FloatOps}
use google_ads_intelligence.Approval.Strategy.{Setting, Override, CampaignPlan, editable}
use google_ads_intelligence.Approval.Strategy.Auto.{auto_value}
use google_ads_intelligence.Approval.Strategy.Final.{effective}
use google_ads_intelligence.Approval.Workflow.{
  Generation, Db, with_generation, save, is_decided, back_to_draft,
}
use google_ads_intelligence.Approval.Edits.{set_override}

module _ {F : Type 0} ⦃fl : FloatOps F⦄ (parse : Text → Option F) where
  effective-insert :
      (plan : CampaignPlan F) (overrides : Dict Text (Override F)) (ov : Override F)
      (key field : Text)
      → effective parse plan (insert field ov overrides) key
        ≡ (if key =? field then ov.manual else effective parse plan overrides key)
  unfolding effective
  effective-insert plan overrides ov key field = elim (Bool-cases (key =? field)) [
    | inl same ↦
        let here : key ≡ field = (list_eq.beq_iff key field).0 same in
        rw (same, here) (rw (effective, lookup-insert_self field ov overrides) refl)
    | inr other ↦ rw (effective, other, lookup-insert_ne key field ov overrides other) refl
  ]

  -- The value in effect of a field of a strategy.
  abbrev pub value_of : ℕ → Text → Db F → Option (Setting F)
  value_of id key db = elim (get_row db.generations id) [
    | none ↦ none
    | some g ↦ some (effective parse g.plan g.overrides key)
  ]

  saved-value :
      (id : ℕ) (key : Text) (g : Generation F) (t : Table (Generation F)) (db : Db F)
      → db.generations ≡ set_row id g t
      → value_of id key db ≡ some (effective parse g.plan g.overrides key)
  saved-value id key g t db h =
      let found : get_row db.generations id ≡ some g = rw h (lookup-insert_self id g t.rows) in
      rw (value_of, found) refl

  back_to_draft-effective :
      (reset : Bool) (g : Generation F) (key : Text)
      → effective parse (back_to_draft reset g).plan (back_to_draft reset g).overrides key
        ≡ effective parse g.plan g.overrides key
  back_to_draft-effective true g key = refl
  back_to_draft-effective false g key = refl

  -- Let `field` be editable, and let the strategy `id` be in the table. After `set_override` writes a
  -- value to the field, the value in effect of that field is the one written, and the value in effect of
  -- every other field is as it was.
  pub set_override-effective :
      (now id : ℕ) (field key : Text) (value : Setting F) (by : Option Text) (db : Db F)
      (g : Generation F)
      → mem field editable ≡ true
      → get_row db.generations id ≡ some g
      → value_of id key (set_override now id field value by db).1
        ≡ some (if key =? field then value else effective parse g.plan g.overrides key)
  unfolding set_override
  set_override-effective now id field key value by db g editing found =
      let ov : Override F = record {
        auto = auto_value g.plan field;
        manual = value;
        by = by;
        at = now;
      } in
      let gen : Generation F = record g { overrides = insert field ov g.overrides } in
      let reset = is_decided g.approval_status in
      let gen' = back_to_draft reset gen in
      rw (editing, with_generation, found)
        (saved-value id key gen' db.generations (save id gen' db) refl
          ∙ ap some (
              back_to_draft-effective reset gen key
              ∙ effective-insert g.plan g.overrides ov key field))
