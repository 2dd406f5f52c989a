-- ===== src/Groups.antt =====
-- src/services/orm/printer-group.service.ts over the tables of groups and of the printers in them.
pub mod Members
mod Tests
use d_hub.Orm
use d_hub.Base.{
  ℕ, String, Bool, ◌&&◌, none, some, List, map, ◌==◌, not_found_exception, ok, throw, Prog, ◌>>=◌,
  ◌>>◌, pure, modify, gets,
}
use d_hub.Orm.{Repository}

pub record Group : Type 0 where
  pub id : ℕ
  pub name : String

pub record PrinterGroup : Type 0 where
  pub id : ℕ
  pub group_id : ℕ
  pub printer_id : ℕ

pub record GroupWithPrinters : Type 0 where
  pub id : ℕ
  pub name : String
  pub printers : List PrinterGroup

-- The test of a row by `{ groupId, printerId }`.
abbrev pub joins : ℕ → ℕ → PrinterGroup → Bool
joins g p m = (m.group_id == g) && (m.printer_id == p)

module _ (groups : Repository Group) (members : Repository PrinterGroup) where
  pub record Db : Type 0 where
    pub group_table : groups.Table
    pub member_table : members.Table

module _ {groups : Repository Group} {members : Repository PrinterGroup} where
  unfoldable pub get_group : ℕ → Prog (Db groups members) Group
  get_group k d = elim (groups.find_one_by (λ g. groups.id g == k) d.group_table) [
    | none ↦ (throw not_found_exception, d)
    | some g ↦ (ok g, d)
  ]

  abbrev with_printers : Db groups members → Group → GroupWithPrinters
  with_printers d g = record {
    id = groups.id g;
    name = g.name;
    printers = members.find_by (λ m. m.group_id == groups.id g) d.member_table;
  }

  unfoldable pub list_groups : Db groups members → List GroupWithPrinters
  list_groups d = map (with_printers d) (groups.rows d.group_table)

  unfoldable pub get_group_with_printers : ℕ → Prog (Db groups members) GroupWithPrinters
  unfolding get_group
  get_group_with_printers k = do group ← get_group k; gets (λ d. with_printers d group)

  unfoldable pub create_group : String → Prog (Db groups members) GroupWithPrinters
  unfolding get_group_with_printers
  create_group name d =
      let k = groups.next_id d.group_table in
      get_group_with_printers k
        (record d { group_table = groups.save (λ k. record { id = k; name = name }) d.group_table })

  unfoldable pub update_group_name : ℕ → String → Prog (Db groups members) (Unit {0})
  unfolding get_group
  update_group_name k name = do
    entity ← get_group k
    modify (λ d. record d {
      group_table =
          groups.update (λ g. groups.id g == groups.id entity) (λ g. record g { name = name })
            d.group_table;
    })

  -- The members go with their group by `onDelete: "CASCADE"`.
  unfoldable pub delete_group : ℕ → Prog (Db groups members) (Unit {0})
  unfolding get_group
  delete_group k = do
    group ← get_group k
    modify (λ d. record {
      group_table = groups.delete (λ g. groups.id g == groups.id group) d.group_table;
      member_table = members.delete (λ m. m.group_id == groups.id group) d.member_table;
    })

  unfoldable pub add_printer_to_group : ℕ → ℕ → Prog (Db groups members) PrinterGroup
  unfolding get_group Orm.create
  add_printer_to_group k p = do
    group ← get_group k
    already_existing ← gets (λ d. members.find_one_by (joins (groups.id group) p) d.member_table)
    elim already_existing [
      | some m ↦ pure m
      | none ↦ λ d.
          let (r, t) =
            Orm.create members (λ k. record { id = k; group_id = groups.id group; printer_id = p })
              d.member_table in
          (r, record d { member_table = t })
    ]

  unfoldable pub remove_printer_from_group : ℕ → ℕ → Prog (Db groups members) (Unit {0})
  unfolding get_group
  remove_printer_from_group k p = do
    _ ← get_group k
    modify (λ d. record d { member_table = members.delete (joins k p) d.member_table })
