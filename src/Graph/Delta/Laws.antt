-- ===== src/Graph/Delta/Laws.antt =====
-- What a drain of the delta feed returns, and why it ends.
use bond_mcps.Prelude.{◌≤◌, ◌≢◌, if◌then◌else◌, false, ℕ, String, none, some, List, [], ◌≡◌, ◌⊎◌}
use bond_mcps.JsonValue.{Fields, text, has_field, truth, get_field, fields_of, Json}
use bond_mcps.Graph.{graph_error, failed, Failure, Request, get, Outcome, done, Service}
use bond_mcps.Graph.Delta.{Drain}
use bond_mcps.Graph.Delta.Linked.{Linked, IsRaised}

module _ (reply : Service) (limit : ℕ) (first : Json) (start : List Request) where
  -- Why a drain ends with a page: it is the last one of the limit, it has no link, or what its link leads to
  -- fails with a GraphError whose status is not 410.
  abbrev pub Stops : ℕ → Fields → List Request → Type 0
  Stops n fs log =
      (n ≡ limit)
      ⊎ ((truth (get_field "@odata.nextLink" fs) ≡ false)
          ⊎ ((link : String) × (status : ℕ) × (error_code message : String) × (get_field
                  "@odata.nextLink" fs
                ≡ text link)
              × (reply log (get link [] none) ≡ failed (graph_error status error_code message))
              × (status ≢ 410)))

  -- The values are those of linked pages, and the cursors those of the last of them; or a failure that is
  -- raised, or a page that is no object.
  abbrev pub Drained : Outcome Drain → Type 0
  Drained r =
      ((n : ℕ) × (values : List Json) × (page : Json) × (log : List Request) × (fs : Fields)
        × Linked reply first start n values page log
        × (n ≤ limit)
        × (fields_of page ≡ some fs)
        × (r
            ≡ done (record {
              value = values;
              next_cursor =
                  if has_field "@odata.nextLink" fs
                  then get_field "@odata.nextLink" fs
                  else text "";
              delta_cursor =
                  if has_field "@odata.deltaLink" fs
                  then get_field "@odata.deltaLink" fs
                  else text "";
            }))
        × Stops n fs log)
      ⊎ ((e : Failure) × (r ≡ failed e) × IsRaised e)
