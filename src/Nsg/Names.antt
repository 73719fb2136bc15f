-- ===== src/Nsg/Names.antt =====
-- What `InitRecord` reads out of a resource id.
use nsg_parser.Regex.Sound.{find_submatch_sound}
use nsg_parser.Regex.Complete.{find_submatch_complete}
use nsg_parser.Resource.{HasNames, resource_regexp_names, IsLine, resource_regexp_complete}
use nsg_parser.Regex.{find_submatch}
use nsg_parser.Prelude.{◌≡◌, refl, ◌⊎◌, inl, inr, true, some, [], ◌++◌, Option-cases, Text, codes}
use nsg_parser.Nsg.Record.{AzureNsgEventRecord, record_regexp, init_record}

abbrev pub nsg_kind : Text
nsg_kind = codes "NETWORKSECURITYGROUPS/"

-- InitRecord either keeps the mark of the record and puts three names into it that its resource id
-- holds in their places, or only marks it as initialized.
pub init_record_names :
    (r : AzureNsgEventRecord)
    → ((init_record r).initialized ≡ r.initialized)
        × HasNames nsg_kind r.resource_id
            (init_record r).subscription_id
            (init_record r).resource_group
            (init_record r).nsg_name
      ⊎ (init_record r ≡ record r { initialized = true })
unfolding init_record
init_record_names r = elim (Option-cases (find_submatch record_regexp r.resource_id)) [
  | inl e ↦ inr (rw e)
  | inr (caps, e) ↦
      let (s, g, n, ec, h) =
        resource_regexp_names nsg_kind r.resource_id caps (find_submatch_sound _ _ _ e) in
      inl (rw (e, ec) (refl, h))
]

-- A resource id without a newline that names a subscription, a resource group and a security group
-- is never refused: the record is left unmarked, with names that the id holds in these places.
pub init_record_complete :
    (r : AzureNsgEventRecord) (front subscription group_name provider name : Text)
    → IsLine nsg_kind front
    → IsLine nsg_kind subscription
    → IsLine nsg_kind group_name
    → IsLine nsg_kind provider
    → IsLine nsg_kind name
    → r.resource_id
      ≡ front
        ++ (codes "SUBSCRIPTIONS/"
            ++ (subscription
                ++ (codes "/RESOURCEGROUPS/"
                    ++ (group_name
                        ++ (codes "/PROVIDERS/" ++ (provider ++ (nsg_kind ++ (name ++ []))))))))
    → ((init_record r).initialized ≡ r.initialized)
      × HasNames nsg_kind r.resource_id
          (init_record r).subscription_id
          (init_record r).resource_group
          (init_record r).nsg_name
unfolding init_record
init_record_complete r front s g p n hf hs hg hp hn e =
    let (caps, found) =
      find_submatch_complete record_regexp _ _
        (resource_regexp_complete nsg_kind front s g p n hf hs hg hp hn) in
    let found' : find_submatch record_regexp r.resource_id ≡ some caps = rw e found in
    let (s', g', n', ec, h) =
      resource_regexp_names nsg_kind r.resource_id caps (find_submatch_sound _ _ _ found') in
    rw (found', ec) (refl, h)
