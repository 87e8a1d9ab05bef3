-- ===== src/Billing/Features.antt =====
-- internal/billing/features.go. A limit of -1, which stands for no limit, is `none`, as is an error of
-- ValidateSiteLimit's absence; the numbers of the error message are its value.
pub mod Tiers
use fortress_waf.Base.{
  ℕ, Bool, true, false, String, Option, none, some, leb, if◌then◌else◌, ◌==◌, text_keys,
}

pub record Features : Type 0 where
  pub max_sites : Option ℕ
  pub max_rules : Option ℕ
  pub ml_engine : Bool
  pub multi_tenant : Bool
  pub fips_mode : Bool
  pub compliance_reports : Bool
  pub api_protection : Bool
  pub dlp : Bool
  pub bot_protection : Bool
  pub virtual_patching : Bool
  pub advanced_analytics : Bool
  pub priority_support : Bool
  pub sla_minutes : ℕ
  pub max_tenants : Option ℕ
  pub max_api_calls_per_day : Option ℕ

abbrev pub community_features : Features
community_features = record {
  max_sites = some 1;
  max_rules = some 100;
  ml_engine = false;
  multi_tenant = false;
  fips_mode = false;
  compliance_reports = false;
  api_protection = true;
  dlp = false;
  bot_protection = true;
  virtual_patching = true;
  advanced_analytics = false;
  priority_support = false;
  sla_minutes = 0;
  max_tenants = some 0;
  max_api_calls_per_day = some 10000;
}

abbrev pub starter_features : Features
starter_features = record {
  max_sites = some 5;
  max_rules = some 500;
  ml_engine = false;
  multi_tenant = false;
  fips_mode = false;
  compliance_reports = false;
  api_protection = true;
  dlp = false;
  bot_protection = true;
  virtual_patching = true;
  advanced_analytics = false;
  priority_support = false;
  sla_minutes = 0;
  max_tenants = some 0;
  max_api_calls_per_day = some 50000;
}

abbrev pub professional_features : Features
professional_features = record {
  max_sites = some 25;
  max_rules = none;
  ml_engine = true;
  multi_tenant = false;
  fips_mode = false;
  compliance_reports = true;
  api_protection = true;
  dlp = true;
  bot_protection = true;
  virtual_patching = true;
  advanced_analytics = true;
  priority_support = false;
  sla_minutes = 240;
  max_tenants = some 0;
  max_api_calls_per_day = none;
}

abbrev pub enterprise_features : Features
enterprise_features = record {
  max_sites = none;
  max_rules = none;
  ml_engine = true;
  multi_tenant = true;
  fips_mode = true;
  compliance_reports = true;
  api_protection = true;
  dlp = true;
  bot_protection = true;
  virtual_patching = true;
  advanced_analytics = true;
  priority_support = true;
  sla_minutes = 60;
  max_tenants = none;
  max_api_calls_per_day = none;
}

-- GetFeatures, on TierFeatures.
unfoldable pub get_features : String → Features
get_features tier =
    if tier == "starter"
    then starter_features
    else if tier == "professional"
    then professional_features
    else if tier == "enterprise"
    then enterprise_features
    else community_features

-- The switch of CheckFeature.
unfoldable pub has_feature : Features → String → Bool
has_feature f feature_name =
    if feature_name == "ml_engine"
    then f.ml_engine
    else if feature_name == "multi_tenant"
    then f.multi_tenant
    else if feature_name == "fips_mode"
    then f.fips_mode
    else if feature_name == "compliance_reports"
    then f.compliance_reports
    else if feature_name == "api_protection"
    then f.api_protection
    else if feature_name == "dlp"
    then f.dlp
    else if feature_name == "bot_protection"
    then f.bot_protection
    else if feature_name == "virtual_patching"
    then f.virtual_patching
    else if feature_name == "advanced_analytics"
    then f.advanced_analytics
    else if feature_name == "priority_support"
    then f.priority_support
    else false

-- CheckFeature
unfoldable pub check_feature : String → String → Bool
unfolding get_features has_feature
check_feature tier feature_name = has_feature (get_features tier) feature_name

-- ValidateSiteLimit, with the numbers of the error message.
unfoldable pub validate_site_limit : String → ℕ → Option (ℕ × ℕ)
unfolding get_features
validate_site_limit tier current_count = elim (get_features tier).max_sites [
  | none ↦ none
  | some limit ↦ if leb limit current_count then some (current_count, limit) else none
]
