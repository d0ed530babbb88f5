-- ===== src/Web/Views.antt =====
-- web/*.go: what the templates are given.
use xensus.Base.{ℕ, Bool, Option, List, Text}
use xensus.Config.{Access}
use xensus.Auth.{User}
use xensus.Web.Landing.{NavView, nav_view}

-- The struct `BaseView`
pub record BaseView : Type 0 where
  pub title : Text
  pub user : Option User
  pub nav : NavView

-- `base`, for the user whom `Authenticate` found
abbrev pub base : Access → Option User → Text → BaseView
base access user title = record { title = title; user = user; nav = nav_view access user }

pub record PersonRow : Type 0 where
  pub id : Text
  pub name : Text

pub record ListView : Type 0 where
  pub base : BaseView
  pub query : Text
  pub persons : List PersonRow
  pub show_welcome : Bool

pub record PersonView : Type 0 where
  pub id : Text
  pub name : Text
  pub created_at : Text
  pub created_by : Text
  pub updated_at : Text
  pub updated_by : Text

pub record AuditView : Type 0 where
  pub occurred_at : Text
  pub action : Text
  pub actor_upn : Text
  pub details : Text

-- The struct `associationRow`
pub record LinkRow : Type 0 where
  pub id : ℕ
  pub system_id : ℕ
  pub system_name : Text
  pub foreign_id : Text
  pub created_at : Text
  pub created_by : Text

pub record SystemOption : Type 0 where
  pub id : ℕ
  pub name : Text

pub record DetailView : Type 0 where
  pub base : BaseView
  pub person : PersonView
  pub associations : List LinkRow
  pub systems : List SystemOption
  pub audit : List AuditView

-- The struct `systemRow`
pub record SystemLine : Type 0 where
  pub id : ℕ
  pub name : Text
  pub created_at : Text
  pub created_by : Text
  pub disabled_at : Text
  pub disabled_by : Text

pub record SystemsListView : Type 0 where
  pub base : BaseView
  pub query : Text
  pub systems : List SystemLine
  pub disabled_count : ℕ

pub record DisabledSystemsView : Type 0 where
  pub base : BaseView
  pub systems : List SystemLine

pub record SystemView : Type 0 where
  pub id : ℕ
  pub name : Text
  pub created_at : Text
  pub created_by : Text
  pub updated_at : Text
  pub updated_by : Text
  pub disabled : Bool
  pub disabled_at : Text
  pub disabled_by : Text

pub record SystemDetailView : Type 0 where
  pub base : BaseView
  pub system : SystemView
  pub audit : List AuditView

pub record StewardWebRow : Type 0 where
  pub id : ℕ
  pub upn : Text
  pub promoted_at : Text
  pub promoted_by : Text
  pub is_self : Bool

pub record PendingWebRow : Type 0 where
  pub id : ℕ
  pub upn : Text
  pub invited_at : Text
  pub invited_by : Text

pub record StewardsView : Type 0 where
  pub base : BaseView
  pub stewards : List StewardWebRow
  pub pending : List PendingWebRow

pub record AuditFilterView : Type 0 where
  pub entity_type : Text
  pub actor : Text
  pub from : Text
  pub to : Text
  pub entity_types : List Text
  pub actors : List Text

pub record AuditEventRow : Type 0 where
  pub occurred_at : Text
  pub actor_upn : Text
  pub action : Text
  pub entity_label : Text
  pub entity_href : Text
  pub details : Text

pub record AuditPageView : Type 0 where
  pub base : BaseView
  pub filter : AuditFilterView
  pub events : List AuditEventRow
  pub csv_href : Text
  pub limited : Bool

-- The data of a page, under the page's name.
pub data View : Type 0 where
  persons_list : ListView → View
  person_detail : DetailView → View
  systems_list : SystemsListView → View
  system_detail : SystemDetailView → View
  disabled_systems : DisabledSystemsView → View
  stewards : StewardsView → View
  audit : AuditPageView → View
