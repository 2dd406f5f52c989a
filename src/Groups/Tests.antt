-- ===== src/Groups/Tests.antt =====
-- Groups of printers in memory.
use d_hub.Base.{◌≡◌, refl, List, [], ◌∷◌}
use d_hub.Orm.{Repository}
use d_hub.Orm.Table.{in_memory}
use d_hub.Groups.{Group, PrinterGroup, Db}
use d_hub.Groups.Members.{
  Op, create_op, rename_op, delete_op, add_op, run_ops, IsValid, run_ops-IsValid,
}

abbrev group_repo : Repository Group
group_repo = in_memory (λ g. g.id)

abbrev member_repo : Repository PrinterGroup
member_repo = in_memory (λ m. m.id)

abbrev two_groups : Db group_repo member_repo
two_groups = record {
  group_table = record { id = 1; name = "north" } ∷ record { id = 2; name = "south" } ∷ [];
  member_table = record { id = 5; group_id = 1; printer_id = 9 } ∷ [];
}

abbrev some_ops : List Op
some_ops =
    add_op 2 9 ∷ add_op 2 9 ∷ add_op 7 9 ∷ rename_op 1 "east" ∷ delete_op 1 ∷ create_op "west" ∷ []

members_left :
    (run_ops some_ops two_groups).member_table
    ≡ record { id = 6; group_id = 2; printer_id = 9 } ∷ []
unfolding run_ops d_hub.Orm.Table.above
members_left = refl

run_ops-IsValid_example : IsValid (λ g. refl) (run_ops some_ops two_groups)
run_ops-IsValid_example =
    run_ops-IsValid (λ g. refl) some_ops two_groups
      (record { once = λ g p. ((λ e. refl), tt); known = (refl, tt) })
